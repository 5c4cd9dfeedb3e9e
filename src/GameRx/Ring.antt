-- ===== src/GameRx/Ring.antt =====
-- The ring's invariant and the entries that it holds, oldest first.
use ldn_mitm.Base.{
  ℕ, zero, suc, ◌+◌, ◌%◌, ◌≤◌, ◌<◌, ◌≡◌, refl, ap, List, [], ◌∷◌, ◌++◌, length, length-set, get_or,
  set, get_or-set_self, get_or-set_ne, arith,
}
use ldn_mitm.GameRx.{GameRx, Entry, blank, max_entries, push, pop, clear, initial}

pub record IsValid (g : GameRx) : Type 0 where
  pub slots : length g.ring ≡ max_entries
  pub head_in : g.head < max_entries
  pub count_in : g.count ≤ max_entries

-- `n` slots from `h` on, round the array
abbrev pub slots_from : List Entry → ℕ → ℕ → List Entry
slots_from ring h zero = []
slots_from ring h (suc n) = get_or ring h blank ∷ slots_from ring ((h + 1) % max_entries) n

abbrev pub contents : GameRx → List Entry
contents g = slots_from g.ring g.head g.count

pub length-slots_from : (ring : List Entry) (h n : ℕ) → length (slots_from ring h n) ≡ n
length-slots_from ring h zero = refl
length-slots_from ring h (suc n) = ap suc (length-slots_from ring ((h + 1) % max_entries) n)

-- Writing the slot behind the last one appends.
pub slots_from-set :
    (ring : List Entry) (e : Entry) (n h i : ℕ)
    → length ring ≡ max_entries
    → h < max_entries
    → n < max_entries
    → i ≡ (h + n) % max_entries
    → slots_from (set ring i e) h (suc n) ≡ slots_from ring h n ++ e ∷ []
slots_from-set ring e zero h i l hh hn p =
    let here : i ≡ h = omega arith in
    rw here (ap (λ x. x ∷ []) (get_or-set_self ring h e blank (omega arith)))
slots_from-set ring e (suc n) h i l hh hn p = λ k.
    get_or-set_ne ring {i = i} {j = h} e blank (omega arith) k
    ∷ slots_from-set ring e n ((h + 1) % max_entries) i l (omega arith) (omega arith) (omega arith)
        k

initial-IsValid : IsValid initial
initial-IsValid = omega arith

-- Push keeps a ring valid: 32 slots, the head among them, and at most 32 frames held.
pub push-IsValid : (g : GameRx) (e : Entry) → IsValid g → IsValid (push g e)
unfolding push
push-IsValid g e v =
    ground
      (arith, length-set g.ring g.head e, length-set g.ring ((g.head + g.count) % max_entries) e)

pop-IsValid : (g : GameRx) (max_len : ℕ) → IsValid g → IsValid (pop g max_len).0
unfolding pop
pop-IsValid g max_len v = ground arith

clear-IsValid : (g : GameRx) → IsValid g → IsValid (clear g)
unfolding clear
clear-IsValid g v = ground arith
