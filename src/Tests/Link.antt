-- ===== src/Tests/Link.antt =====
-- The relay's host name is asked for, and a link to it fails for want of a connection.
use ldn_mitm.Base.{ℕ, ◌≡◌, refl, ◌+◌, ◌*◌, List, [], ◌∷◌, ◌++◌, true, false, some, drop, arith}
use ldn_mitm.RelayConfig.{Config, bad_client_id}
use ldn_mitm.Discovery.Lifecycle.{Nifm}
use ldn_mitm.RelayLink.{Link, LinkAnswers, open_link}
use ldn_mitm.RelayLink.Released.{Settled, open_link-Settled}
use ldn_mitm.RelayLink.Dns.{labels, encode_labels, dns_query, resolve_hostname}
use ldn_mitm.RelayLink.Dns.Answer.{address_answer, resolve_hostname-first}
use ldn_mitm.Tests.Fixtures.{host_ip, host_transport}

-- a.bc
abbrev name : List ℕ
name = b'a' ∷ 46 ∷ b'b' ∷ b'c' ∷ []

abbrev asked_bytes : List ℕ
asked_bytes =
    0x13 ∷ 0x37 ∷ 1 ∷ 0 ∷ 0 ∷ 1 ∷ 0 ∷ 0 ∷ 0 ∷ 0 ∷ 0 ∷ 0 ∷ 1 ∷ b'a' ∷ 2 ∷ b'b' ∷ b'c' ∷ 0 ∷ 0 ∷ 1 ∷ 0
    ∷ 1 ∷ []

abbrev one_answer : List ℕ
one_answer = 0x13 ∷ 0x37 ∷ 0x81 ∷ 0x80 ∷ 0 ∷ 1 ∷ 0 ∷ 1 ∷ 0 ∷ 0 ∷ 0 ∷ 0 ∷ []

resolve_hostname-first_example :
    resolve_hostname
      (λ asked. some (one_answer ++ (drop 12 asked ++ address_answer 0 300 0x0102 0x0304 [])))
      name
    ≡ 0x0102 * 65536 + 0x0304
unfolding dns_query encode_labels labels
resolve_hostname-first_example =
    resolve_hostname-first name asked_bytes one_answer 0 0 300 0x0102 0x0304 [] refl refl
      (omega arith) (omega arith)

abbrev one_server : Config
one_server = record {
  servers = record { name = name; host = name; ip = 0; port = 11451 } ∷ [];
  selected = 0;
  enabled = true;
  client_id = 0x1234;
  broadcast = true;
}

abbrev closed_link : Link
closed_link = record {
  transport = record host_transport { is_open = false };
  have_session = false;
  have_request = false;
  bridge = false;
}

-- All calls succeed but the three attempts to connect.
abbrev unreachable : LinkAnswers
unreachable = record {
  nifm_init = true;
  create_request = true;
  submit = true;
  ip_address = some host_ip;
  socket = true;
  connects = false ∷ false ∷ false ∷ true ∷ [];
}

abbrev one_session : Nifm
one_session = record {
  sessions = 1;
  mtu = 1500;
  original_mtu = 1500;
  request_open = true;
  relay_session = false;
}

open_link-Settled_example :
    Settled one_session
      (open_link (λ host. 0x01020304) one_server 0x1234 unreachable one_session closed_link)
unfolding bad_client_id
open_link-Settled_example =
    open_link-Settled (λ host. 0x01020304) one_server 0x1234 unreachable one_session closed_link
      (record { no_socket = refl; no_session = refl; no_request = refl; no_bridge = refl })
      (omega arith) refl
