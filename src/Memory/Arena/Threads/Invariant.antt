-- ===== src/Memory/Arena/Threads/Invariant.antt =====
-- The invariant of the threads: the order of the blocks below the cursor, and the cursors that the
-- threads have loaded.
use the_ai_cowboys_6_shooter.Prelude.{
  ℕ, ◌+◌, ◌%◌, ◌^◌, ◌≤◌, ◌≡◌, refl, arith, ◌==◌, List, [], ◌∷◌, Bool-cases, inl, inr,
}
use the_ai_cowboys_6_shooter.Memory.Arena.{swap_to, attempt, new, reset}
use the_ai_cowboys_6_shooter.Memory.Arena.Sequential.{IsRequest, attempt_lem, align_up_inside}
use the_ai_cowboys_6_shooter.Memory.Arena.Threads.{
  Block, Pc, idle, asked, loaded, System, goto, Step, call, load, exhaust, retry, win, recycle,
  init, Reach, start, next,
}

-- The blocks below `limit`, newest first: each ends where or before the one granted after it
-- starts, and starts at a multiple of its alignment.
abbrev pub Stacked : ℕ → List Block → Type 0
Stacked limit [] = Unit
Stacked limit (g ∷ gs) = (g.start + g.size ≤ limit) × (g.start % g.align ≡ 0) × Stacked g.start gs

-- A pending call asks for what a type can have, and its loaded cursor lay inside.
abbrev pub IsSound : ℕ → Pc → Type 0
IsSound capacity idle = Unit
IsSound capacity (asked size align) = (k : ℕ) × IsRequest size k × (align ≡ 2 ^ k)
IsSound capacity (loaded size align current) =
    (k : ℕ) × IsRequest size k × (align ≡ 2 ^ k) × (current ≤ capacity)

pub record Inv (capacity : ℕ) (s : System) : Type 0 where
  pub fixed : s.arena.capacity ≡ capacity
  pub inside : s.arena.cursor ≤ capacity
  pub stacked : Stacked s.arena.cursor s.grants
  pub sound : (i : ℕ) → IsSound capacity (s.pc i)

pub Stacked-mono : (a b : ℕ) (gs : List Block) → a ≤ b → Stacked a gs → Stacked b gs
Stacked-mono a b [] h st = tt
Stacked-mono a b (g ∷ gs) h st = (omega arith, st.1, st.2)

goto-IsSound :
    (capacity : ℕ) (pc : ℕ → Pc) (i : ℕ) (p : Pc)
    → ((j : ℕ) → IsSound capacity (pc j))
    → IsSound capacity p
    → (j : ℕ) → IsSound capacity (goto pc i p j)
goto-IsSound capacity pc i p all here j = elim (Bool-cases (j == i)) [
  | inl e ↦ rw e here
  | inr e ↦ rw e (all j)
]

module _ {capacity : ℕ} (small : capacity ≤ 2 ^ 62) {s : System} (inv : Inv capacity s) where
  -- What thread `i` knows, once its place is known.
  at : (i : ℕ) {p : Pc} → s.pc i ≡ p → IsSound capacity p
  at i e = rw e at (inv.sound i)

  -- A round that swaps gives the next aligned block, and the block fits.
  swap_fits :
      (size align current aligned new_cursor : ℕ)
      → IsSound capacity (loaded size align current)
      → attempt s.arena size align current ≡ swap_to aligned new_cursor
      → (current ≤ aligned)
        × (aligned + size ≡ new_cursor)
        × (new_cursor ≤ capacity)
        × (aligned % align ≡ 0)
  swap_fits size align current aligned new_cursor (k, r, e, low) run =
      let fits : s.arena.capacity ≤ 2 ^ 62 = rw inv.fixed small in
      let inside : current ≤ s.arena.capacity = rw inv.fixed low in
      let up = (align_up_inside s.arena size k current fits inside r).0 in
      let run' : attempt s.arena size (2 ^ k) current ≡ swap_to aligned new_cursor = rw (← e) run in
      let lem = attempt_lem s.arena size k current fits inside r in
      rw e (ground (arith, lem, run', up, inv.fixed))

  pub Step-Inv : {t : System} → Step s t → Inv capacity t
  unfolding reset
  Step-Inv (call i size k r e) = record {
    fixed = inv.fixed;
    inside = inv.inside;
    stacked = inv.stacked;
    sound = goto-IsSound capacity s.pc i (asked size (2 ^ k)) inv.sound (k, r, refl);
  }
  Step-Inv (load i size align e) =
      let (k, r, a) = at i e in
      record {
        fixed = inv.fixed;
        inside = inv.inside;
        stacked = inv.stacked;
        sound =
            goto-IsSound capacity s.pc i (loaded size align s.arena.cursor) inv.sound
              (k, r, a, inv.inside);
      }
  Step-Inv (exhaust i size align current e run) = record {
    fixed = inv.fixed;
    inside = inv.inside;
    stacked = inv.stacked;
    sound = goto-IsSound capacity s.pc i idle inv.sound tt;
  }
  Step-Inv (retry i size align current aligned new_cursor e run) =
      let (k, r, a, low) = at i e in
      record {
        fixed = inv.fixed;
        inside = inv.inside;
        stacked = inv.stacked;
        sound = goto-IsSound capacity s.pc i (asked size align) inv.sound (k, r, a);
      }
  Step-Inv (win i size align current aligned new_cursor e run same) =
      let (above, ends, fits, multiple) =
        swap_fits size align current aligned new_cursor (at i e) run in
      record {
        fixed = inv.fixed;
        inside = fits;
        stacked = (
          omega arith,
          multiple,
          Stacked-mono s.arena.cursor aligned s.grants (omega arith) inv.stacked,
        );
        sound = goto-IsSound capacity s.pc i idle inv.sound tt;
      }
  Step-Inv recycle = record {
    fixed = inv.fixed;
    inside = omega arith;
    stacked = tt;
    sound = inv.sound;
  }

pub Reach-Inv :
    {base capacity : ℕ} {s : System} → capacity ≤ 2 ^ 62 → Reach base capacity s → Inv capacity s
unfolding init new
Reach-Inv small start = record { fixed = refl; inside = omega arith; stacked = tt; sound = λ i. tt }
Reach-Inv small (next r st) = Step-Inv small (Reach-Inv small r) st
