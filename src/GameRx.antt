-- ===== src/GameRx.antt =====
-- GameRx of ldn_mitm/source/session_registry.cpp: a ring of 32 relay frames, with the game's socket
-- and port. A file descriptor is an option; `none` stands for -1.
pub mod Ring
pub mod Refine
use ldn_mitm.Base.{
  ℕ, ◌+◌, ◌-◌, ◌%◌, ◌≤◌, List, [], ◌∷◌, Bool, true, false, Option, none, some, length, get_or, set,
  take, replicate, ltb, ◌==◌, ◌||◌, if◌then◌else◌, min,
}

abbrev pub max_entries : ℕ
max_entries = 32

abbrev pub max_payload : ℕ
max_payload = 1472

-- `payload` is the first `len` bytes of the entry's array.
pub record Entry : Type 0 where
  pub src_ip : ℕ
  pub sport : ℕ
  pub dport : ℕ
  pub payload : List ℕ

abbrev pub blank : Entry
blank = record { src_ip = 0; sport = 0; dport = 0; payload = [] }

pub record GameRx : Type 0 where
  pub ring : List Entry
  pub head : ℕ
  pub count : ℕ
  pub game_fd : Option ℕ
  pub session_dport : ℕ

-- the static initialisers
abbrev pub initial : GameRx
initial = record {
  ring = replicate max_entries blank;
  head = 0;
  count = 0;
  game_fd = none;
  session_dport = 0;
}

unfoldable pub set_game_fd : GameRx → Option ℕ → GameRx
set_game_fd g fd = record g { game_fd = fd }

-- `memcpy` fills the slot; a full ring gives up its oldest entry.
unfoldable pub push : GameRx → Entry → GameRx
push g e =
    if length e.payload == 0 || ltb max_payload (length e.payload)
    then g
    else if g.count == max_entries
    then record g {
      ring = set g.ring g.head e;
      head = (g.head + 1) % max_entries;
      session_dport = e.dport;
    }
    else record g {
      ring = set g.ring ((g.head + g.count) % max_entries) e;
      count = g.count + 1;
      session_dport = e.dport;
    }

-- What a successful Pop writes through its pointers; `out_len` is the length of `out`.
pub record Popped : Type 0 where
  pub src_ip : ℕ
  pub sport : ℕ
  pub out : List ℕ

abbrev pub popped : Entry → ℕ → Popped
popped e max_len = record {
  src_ip = e.src_ip;
  sport = e.sport;
  out = take (min (length e.payload) max_len) e.payload;
}

unfoldable pub pop : GameRx → ℕ → GameRx × Option Popped
pop g max_len = if g.count == 0 then (g, none) else (
  record g { head = (g.head + 1) % max_entries; count = g.count - 1 },
  some (popped (get_or g.ring g.head blank) max_len),
)

unfoldable pub has_data : GameRx → Bool
has_data g = ltb 0 g.count

unfoldable pub note_session_port : GameRx → ℕ → GameRx
note_session_port g port = if port == 0 then g else record g { session_dport = port }

unfoldable pub peek_dport : GameRx → ℕ
peek_dport g = if g.count == 0 then 0 else (get_or g.ring g.head blank).dport

-- Clear leaves the old entries in the array.
unfoldable pub clear : GameRx → GameRx
clear g = record g { head = 0; count = 0; game_fd = none; session_dport = 0 }
