-- ===== src/Memory/Arena/Threads/Safety.antt =====
-- What a caller of `alloc` may rely on while other threads allocate and reset.
use the_ai_cowboys_6_shooter.Prelude.{
  ℕ, zero, suc, ◌+◌, ◌%◌, ◌^◌, ◌≤◌, ◌<◌, ◌≡◌, ◌≢◌, ◌⊎◌, inl, inr, refl, ◌∙◌, arith, List, [], ◌∷◌,
  get_elem?, some, eq→==, ne→==_false,
}
use the_ai_cowboys_6_shooter.Memory.Arena.{
  Attempt, exhausted, give_up, swap_to, attempt, pointer, alloc,
}
use the_ai_cowboys_6_shooter.Memory.Arena.Threads.{
  Block, Pc, idle, asked, loaded, System, goto, load, exhaust, win, Reach, Solo, stay, move,
}
use the_ai_cowboys_6_shooter.Memory.Arena.Threads.Invariant.{Stacked, Reach-Inv}

Stacked-get_elem? :
    (limit : ℕ) (gs : List Block) (i : ℕ) {g : Block}
    → Stacked limit gs
    → get_elem? gs i ≡ some g
    → (g.start + g.size ≤ limit) × (g.start % g.align ≡ 0)
Stacked-get_elem? limit [] i st e = absurd (cc)
Stacked-get_elem? limit (x ∷ gs) zero st e = ground (arith, st, e)
Stacked-get_elem? limit (x ∷ gs) (suc i) {g} st e =
    let rest = Stacked-get_elem? x.start gs i {g = g} st.2 e in ground (arith, rest, st.0)

Stacked-apart :
    (limit : ℕ) (gs : List Block) (i j : ℕ) {g h : Block}
    → Stacked limit gs
    → get_elem? gs i ≡ some g
    → get_elem? gs j ≡ some h
    → i < j
    → h.start + h.size ≤ g.start
Stacked-apart limit [] i j st e f lt = absurd (cc)
Stacked-apart limit (x ∷ gs) zero zero st e f lt = absurd (omega arith)
Stacked-apart limit (x ∷ gs) (suc i) zero st e f lt = absurd (omega arith)
Stacked-apart limit (x ∷ gs) zero (suc j) {g} {h} st e f lt =
    let rest = Stacked-get_elem? x.start gs j {g = h} st.2 f in ground (arith, rest, e)
Stacked-apart limit (x ∷ gs) (suc i) (suc j) {g} {h} st e f lt =
    Stacked-apart x.start gs i j {g = g} {h = h} st.2 e f (omega arith)

-- On a buffer of at most 2 ^ 62 bytes, in every state that any interleaving of resets and of calls
-- reaches, each for less than 2 ^ 63 bytes at an alignment of a power of two up to 2 ^ 29: of two
-- blocks handed out since the last reset the older ends where or before the newer starts, and each
-- block lies inside the buffer at a multiple of its alignment.
pub grants_apart :
    {base capacity : ℕ} {s : System} (i j : ℕ) {g h : Block}
    → capacity ≤ 2 ^ 62
    → Reach base capacity s
    → get_elem? s.grants i ≡ some g
    → get_elem? s.grants j ≡ some h
    → i < j
    → (h.start + h.size ≤ g.start)
      × (g.start + g.size ≤ capacity)
      × (g.start % g.align ≡ 0)
      × (h.start % h.align ≡ 0)
grants_apart {s} i j {g} {h} small r e f lt =
    let inv = Reach-Inv small r in
    let first = Stacked-get_elem? s.arena.cursor s.grants i {g = g} inv.stacked e in
    let second = Stacked-get_elem? s.arena.cursor s.grants j {g = h} inv.stacked f in
    (
      Stacked-apart s.arena.cursor s.grants i j {g = g} {h = h} inv.stacked e f lt,
      omega (arith, inv.inside),
      first.1,
      second.1,
    )

goto_self : (pc : ℕ → Pc) (i : ℕ) (p : Pc) → goto pc i p i ≡ p
goto_self pc i p = rw (eq→== i i refl)

goto_other : (pc : ℕ → Pc) (i j : ℕ) (p : Pc) → j ≢ i → goto pc i p j ≡ pc j
goto_other pc i j p n = rw (ne→==_false j i n) refl

-- The state `t` after the call that thread `i` was in at `s`.
pub record Ended (i size align : ℕ) (s t : System) : Type 0 where
  pub back : t.pc i ≡ idle
  pub arena : t.arena ≡ (alloc s.arena size align).1
  pub handed :
      (((alloc s.arena size align).0 ≡ exhausted) × (t.grants ≡ s.grants))
      ⊎ ((aligned : ℕ) × ((alloc s.arena size align).0 ≡ pointer s.arena aligned)
          × (t.grants ≡ record { start = aligned; size = size; align = align } ∷ s.grants))
  pub others : (j : ℕ) → j ≢ i → t.pc j ≡ s.pc j

pub alone :
    (s : System) (i size align : ℕ)
    → s.pc i ≡ asked size align
    → (t : System) × Solo i s t × Ended i size align s t
alone s i size align e = finish (attempt s.arena size align s.arena.cursor) refl
  where
    pc1 : ℕ → Pc
    pc1 = goto s.pc i (loaded size align s.arena.cursor)

    held : pc1 i ≡ loaded size align s.arena.cursor
    held = goto_self s.pc i (loaded size align s.arena.cursor)

    ready : Solo i s (record s { pc = pc1 })
    ready = move stay (load i size align e) refl

    others : (j : ℕ) → j ≢ i → goto pc1 i idle j ≡ s.pc j
    others j n =
        goto_other pc1 i j idle n ∙ goto_other s.pc i j (loaded size align s.arena.cursor) n

    finish :
        (a : Attempt)
        → attempt s.arena size align s.arena.cursor ≡ a
        → (t : System) × Solo i s t × Ended i size align s t
    finish give_up run = (
      record s { pc = goto pc1 i idle },
      move ready (exhaust i size align s.arena.cursor held run) refl,
      record {
        back = goto_self pc1 i idle;
        arena = unfold alloc in rw (run, alloc);
        handed = inl (unfold alloc in rw (run, alloc) refl, refl);
        others = others;
      },
    )
    finish (swap_to aligned new_cursor) run = (
      record {
        arena = record s.arena { cursor = new_cursor };
        pc = goto pc1 i idle;
        grants = record { start = aligned; size = size; align = align } ∷ s.grants;
      },
      move ready (win i size align s.arena.cursor aligned new_cursor held run refl) refl,
      record {
        back = goto_self pc1 i idle;
        arena = unfold alloc in rw (run, alloc);
        handed = inr (aligned, unfold alloc in rw (run, alloc) refl, refl);
        others = others;
      },
    )
