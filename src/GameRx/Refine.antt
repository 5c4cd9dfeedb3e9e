-- ===== src/GameRx/Refine.antt =====
-- The ring against a plain queue: at most 32 frames, the oldest lost first.
use ldn_mitm.Base.{
  ℕ, zero, suc, if_map, ◌∙◌, ◌<◌, set, ◌+◌, ◌-◌, ◌%◌, ◌≡◌, ◌≢◌, refl, ap, List, [], ◌∷◌, ◌++◌,
  Option, none, some, length, get_or, drop, ltb, ◌==◌, ◌||◌, if◌then◌else◌, arith,
}
use ldn_mitm.GameRx.{GameRx, Entry, Popped, popped, blank, max_entries, max_payload, push, pop}
use ldn_mitm.GameRx.Ring.{IsValid, slots_from, contents, length-slots_from, slots_from-set}

-- The abstract queue.
unfoldable pub enqueue : List Entry → Entry → List Entry
enqueue q e =
    if length e.payload == 0 || ltb max_payload (length e.payload)
    then q
    else if length q == max_entries
    then drop 1 q ++ e ∷ []
    else q ++ e ∷ []

unfoldable pub dequeue : List Entry → ℕ → List Entry × Option Popped
dequeue [] max_len = ([], none)
dequeue (e ∷ q) max_len = (q, some (popped e max_len))

slots_from-ne_zero :
    (ring : List Entry) (h n : ℕ)
    → n ≢ 0
    → slots_from ring h n ≡ get_or ring h blank ∷ slots_from ring ((h + 1) % max_entries) (n - 1)
slots_from-ne_zero ring h zero p = absurd (p refl)
slots_from-ne_zero ring h (suc n) p = ap (λ k. slots_from ring h (suc k)) (omega arith)

add_one : (n : ℕ) → n + 1 ≡ suc n
add_one n = omega arith

-- Writing the first slot of a full ring and moving on drops the oldest and appends.
slots_from-set_full :
    (ring : List Entry) (e : Entry) (h n : ℕ)
    → length ring ≡ max_entries
    → h < max_entries
    → n ≡ max_entries
    → slots_from (set ring h e) ((h + 1) % max_entries) n ≡ drop 1 (slots_from ring h n) ++ e ∷ []
slots_from-set_full ring e h zero l k f = absurd (omega arith)
slots_from-set_full ring e h (suc m) l k f =
    slots_from-set ring e m ((h + 1) % max_entries) h l (omega arith) (omega arith) (omega arith)

-- On a valid ring Push does to the held frames what `enqueue` does: a frame of 1 to 1472 bytes is
-- appended, the oldest of 32 being dropped first, and any other frame changes nothing.
pub push_refines :
    (g : GameRx) (e : Entry) → IsValid g → contents (push g e) ≡ enqueue (contents g) e
unfolding push enqueue
push_refines g e v =
    let same : length (contents g) ≡ g.count = length-slots_from g.ring g.head g.count in
    rw same (
      if_map contents (length e.payload == 0 || ltb max_payload (length e.payload)) (λ k. refl)
        (λ k.
          if_map contents (g.count == max_entries)
            (λ f. slots_from-set_full g.ring e g.head g.count v.slots v.head_in (ground arith))
            (λ f.
              ap (slots_from (set g.ring ((g.head + g.count) % max_entries) e) g.head)
                (add_one g.count)
              ∙ slots_from-set g.ring e g.count g.head ((g.head + g.count) % max_entries) v.slots
                  v.head_in (ground (arith, v.count_in)) refl)))

-- On a valid ring Pop returns the oldest frame, cut to the caller's buffer, and leaves the others.
pub pop_refines :
    (g : GameRx) (max_len : ℕ)
    → IsValid g
    → let (g', out) = pop g max_len in (contents g', out) ≡ dequeue (contents g) max_len
unfolding pop dequeue
pop_refines g max_len v = ground (arith, slots_from-ne_zero g.ring g.head g.count)
