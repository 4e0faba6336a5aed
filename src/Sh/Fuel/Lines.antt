-- ===== src/Sh/Fuel/Lines.antt =====
-- The parsing functions from the blocks up.
use assignment1_cs.Base.{
  ℕ, zero, suc, ◌≤◌, ◌<◌, ◌≡◌, refl, ◌⊎◌, inl, inr, Bool-cases, List, [], ◌∷◌, length, arith,
}
use assignment1_cs.Sh.{
  Cmd, Message, exec, back, Parse, parsed, failed, out_of_fuel, skip_space, gettoken, starts,
  parseredirs, parseargs, parseblock, parseexec, parsepipe, parsetail, parseline, all_read,
  parsecmd,
}
use assignment1_cs.Sh.Tokens.{length-skip_space}
use assignment1_cs.Sh.Fuel.{
  Within, and_then-Within, Within-weaken, starts-shorter, parseredirs-Within, parseargs-Within,
}

module _ (line : List ℕ → Parse Cmd) (n : ℕ)
    (lines : (x : List ℕ) → length x < n → Within (length x) (line x)) where
  parseblock-Within : (s : List ℕ) → length s ≤ n → Within (length s) (parseblock line s)
  unfolding parseblock
  parseblock-Within s h =
      let t = skip_space s in
      let u = (gettoken t).2 in
      elim (Bool-cases (starts (40 ∷ []) t)) [
        | inr other ↦ rw (Within, other) tt
        | inl block ↦
            (let shorter = starts-shorter (40 ∷ []) s block in
              rw (Within, block)
                (and_then-Within (length u) (length s) (line u) _
                  (lines u (omega (arith, h, shorter)))
                  (λ cmd v l. elim (Bool-cases (starts (41 ∷ []) (skip_space v))) [
                    | inr other ↦ rw (Within, other) tt
                    | inl closed ↦
                        (let w = (gettoken (skip_space v)).2 in
                          rw (Within, closed)
                            (Within-weaken (length w) (length s)
                              (parseredirs (suc (length w)) cmd w)
                              (omega (arith, l, shorter, starts-shorter (41 ∷ []) v closed))
                              (parseredirs-Within (suc (length w)) cmd w (omega arith))))
                  ])))
      ]

  parseexec-Within : (s : List ℕ) → length s ≤ n → Within (length s) (parseexec line s)
  unfolding parseexec
  parseexec-Within s h =
      let t = skip_space s in
      let shorter = length-skip_space s in
      elim (Bool-cases (starts (40 ∷ []) t)) [
        | inl block ↦
            rw (Within, block)
              (Within-weaken (length t) (length s) (parseblock line t) shorter
                (parseblock-Within t (omega (arith, h, shorter))))
        | inr other ↦
            rw (Within, other)
              (and_then-Within (length t) (length s) (parseredirs (suc (length t)) (exec []) t) _
                (parseredirs-Within (suc (length t)) (exec []) t (omega arith))
                (λ ret v l.
                  Within-weaken (length v) (length s) (parseargs (suc (length v)) 0 ret v)
                    (omega (arith, l, shorter))
                    (parseargs-Within (suc (length v)) 0 ret v (omega arith))))
      ]

  parsepipe-Within :
      (fuel : ℕ) (s : List ℕ)
      → length s < fuel
      → length s ≤ n
      → Within (length s) (parsepipe line fuel s)
  unfolding parsepipe
  parsepipe-Within zero s l h = absurd (omega (arith, l))
  parsepipe-Within (suc fuel) s l h =
      and_then-Within (length s) (length s) (parseexec line s) _ (parseexec-Within s h) (λ left t k.
        elim (Bool-cases (starts (124 ∷ []) (skip_space t))) [
          | inr over ↦ rw (Within, over) (omega (arith, k, length-skip_space t))
          | inl bar ↦
              (let v = (gettoken (skip_space t)).2 in
                let shorter = starts-shorter (124 ∷ []) t bar in
                rw (Within, bar)
                  (and_then-Within (length v) (length s) (parsepipe line fuel v) _
                    (parsepipe-Within fuel v (omega (arith, l, k, shorter))
                      (omega (arith, h, k, shorter)))
                    (λ right w m. omega (arith, m, k, shorter))))
        ])

  parsetail-Within :
      (fuel : ℕ) (cmd : Cmd) (s : List ℕ)
      → length s < fuel
      → length s ≤ n
      → Within (length s) (parsetail line fuel cmd s)
  unfolding parsetail
  parsetail-Within zero cmd s l h = absurd (omega (arith, l))
  parsetail-Within (suc fuel) cmd s l h =
      let t = skip_space s in
      elim (Bool-cases (starts (38 ∷ []) t)) [
        | inl ampersand ↦
            (let v = (gettoken t).2 in
              let shorter = starts-shorter (38 ∷ []) s ampersand in
              rw (Within, ampersand)
                (Within-weaken (length v) (length s) (parsetail line fuel (back cmd) v)
                  (omega (arith, shorter))
                  (parsetail-Within fuel (back cmd) v (omega (arith, l, shorter))
                    (omega (arith, h, shorter)))))
        | inr no_more ↦ elim (Bool-cases (starts (59 ∷ []) (skip_space t))) [
          | inr over ↦
              rw (Within, no_more, parsetail, over)
                (omega (arith, length-skip_space t, length-skip_space s))
          | inl semicolon ↦
              (let v = (gettoken (skip_space t)).2 in
                let shorter = starts-shorter (59 ∷ []) t semicolon in
                let skipped = length-skip_space s in
                rw (Within, no_more, parsetail, semicolon)
                  (and_then-Within (length v) (length s) (line v) _
                    (lines v (omega (arith, h, shorter, skipped)))
                    (λ right w m. omega (arith, m, shorter, skipped))))
        ]
      ]

parseline-Within : (fuel : ℕ) (s : List ℕ) → length s < fuel → Within (length s) (parseline fuel s)
unfolding parseline
parseline-Within zero s h = absurd (omega (arith, h))
parseline-Within (suc fuel) s h =
    let lines : (x : List ℕ) → length x < fuel → Within (length x) (parseline fuel x) =
      λ x k. parseline-Within fuel x k in
    and_then-Within (length s) (length s) (parsepipe (parseline fuel) (suc (length s)) s) _
      (parsepipe-Within (parseline fuel) fuel lines (suc (length s)) s (omega arith)
        (omega (arith, h)))
      (λ cmd t l.
        Within-weaken (length t) (length s) (parsetail (parseline fuel) (suc (length t)) cmd t) l (
          parsetail-Within (parseline fuel) fuel lines (suc (length t)) cmd t (omega arith)
            (omega (arith, h, l))))

-- What `parsecmd` may come to: a command with nothing left, or a panic.
abbrev pub Ended : Parse Cmd → Type 0
Ended out = ((cmd : Cmd) × (out ≡ parsed cmd [])) ⊎ ((m : Message) × (out ≡ failed m))

Within-Ended : (p : Parse Cmd) → Within 0 p → Ended p
Within-Ended (parsed cmd []) h = inl (cmd, refl)
Within-Ended (parsed cmd (c ∷ s)) h = absurd (omega (arith, h))
Within-Ended (failed m) h = inr (m, refl)
Within-Ended out_of_fuel h = absurd h

all_read-Within : (cmd : Cmd) (s : List ℕ) → Within 0 (all_read cmd s)
unfolding all_read
all_read-Within cmd [] = omega arith
all_read-Within cmd (c ∷ s) = tt

-- On every string `parsecmd` ends: it gives a command and has read the whole string, or it ends in
-- one of its panics.
pub parsecmd-Ended : (s : List ℕ) → Ended (parsecmd s)
unfolding parsecmd
parsecmd-Ended s = Within-Ended (parsecmd s) (
    and_then-Within (length s) 0 (parseline (suc (length s)) s) _
      (parseline-Within (suc (length s)) s (omega arith))
      (λ cmd t l. all_read-Within cmd (skip_space t)))
