-- ===== src/RelayLink.antt =====
-- RelayTransport::Open and Close of ldn_mitm/source/relay_client.cpp: what they hold of the system, and
-- the bridge that bsd:u threads send through. Dns is its lookup of host names. What the system calls
-- answer is an argument. The start and the stop of the TCP tunnel are TcpRelay's.
pub mod Dns
pub mod Released
use ldn_mitm.Base.{
  ℕ, zero, suc, ◌+◌, ◌*◌, List, [], ◌∷◌, map, Bool, true, false, not, ◌&&◌, ◌||◌, Option, none,
  some, if◌then◌else◌, ◌==◌,
}
use ldn_mitm.Transport.{Transport, FragSlot}
use ldn_mitm.RelayConfig.{Config, server_ip, server_host}
use ldn_mitm.Discovery.Lifecycle.{Nifm, acquire, release}

-- The transport with m_have_nifm_session and m_have_req, and whether g_bridge_transport is this one.
pub record Link : Type 0 where
  pub transport : Transport
  pub have_session : Bool
  pub have_request : Bool
  pub bridge : Bool

-- The answers of nifmCreateRequest, nifmRequestSubmitAndWait, nifmGetCurrentIpAddress, socket, and of the
-- attempts to connect.
pub record LinkAnswers : Type 0 where
  pub nifm_init : Bool
  pub create_request : Bool
  pub submit : Bool
  pub ip_address : Option ℕ
  pub socket : Bool
  pub connects : List Bool

-- Open's result: a failed system call, or 0xFD with its description
pub data OpenResult : Type 0 where
  opened nifm_failed : OpenResult
  open_failed : ℕ → OpenResult

-- Close
unfoldable pub close_link : Nifm → Link → Nifm × Link
close_link n l = (
  if l.have_session then release n else n,
  record {
    transport = record l.transport { is_open = false };
    have_session = false;
    have_request = false;
    bridge = false;
  },
)

-- up to `tries` attempts to connect
unfoldable pub connects : ℕ → List Bool → Bool
connects zero answers = false
connects (suc tries) [] = false
connects (suc tries) (ok ∷ answers) = if ok then true else connects tries answers

abbrev pub failed : Nifm → Link → OpenResult → Nifm × Link × OpenResult
failed n l r = let (n', l') = close_link n l in (n', l', r)

-- the address to send to: the literal one, or the answer for the host name; 0 is none
abbrev pub target_ip : (List ℕ → ℕ) → Config → ℕ
target_ip resolve c = if server_ip c == 0 then resolve (server_host c) else server_ip c

abbrev pub real_ip : Option ℕ → ℕ
real_ip none = 0
real_ip (some ip) = ip

-- the transport as Open leaves it
abbrev pub fresh : Transport → ℕ → ℕ → Transport
fresh t id ip = record t {
  is_open = true;
  vsrc = 0x0A0D0000 + id;
  rsrc = ip;
  ping_misses = 0;
  ping_supported = false;
  frags = map (λ (f : FragSlot). record f { used = false }) t.frags;
}

abbrev pub named : Link → ℕ → ℕ → Link
named l id ip = record l { transport = record l.transport { vsrc = 0x0A0D0000 + id; rsrc = ip } }

-- Open from the server's address on: socket, connection, bridge
unfoldable pub open_socket : ℕ → LinkAnswers → Nifm → Link → ℕ → Nifm × Link × OpenResult
open_socket id a n l server =
    if server == 0
    then failed n l (open_failed 102)
    else if not a.socket
    then failed n l (open_failed 100)
    else if not (connects 3 a.connects)
    then failed n l (open_failed 101)
    else (
      n,
      record l { transport = fresh l.transport id (real_ip a.ip_address); bridge = true },
      opened,
    )

-- Open with its nifm session
unfoldable pub open_request : ℕ → LinkAnswers → Nifm → Link → ℕ → Nifm × Link × OpenResult
open_request id a n l server =
    if not a.create_request
    then failed n l nifm_failed
    else if not a.submit
    then failed n (record l { have_request = true }) nifm_failed
    else open_socket id a n (named (record l { have_request = true }) id (real_ip a.ip_address))
        server

-- Open: `id` is what EnsureClientId returns, `resolve` is ResolveHostname.
unfoldable pub open_link :
    (List ℕ → ℕ) → Config → ℕ → LinkAnswers → Nifm → Link → Nifm × Link × OpenResult
open_link resolve c id a n l =
    let (held, ok) = acquire n a.nifm_init in
    if ok
    then open_request id a held (record l { have_session = true }) (target_ip resolve c)
    else (n, l, nifm_failed)
