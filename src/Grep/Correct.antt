-- ===== src/Grep/Correct.antt =====
-- The matcher and the meaning of patterns.
use assignment1_cs.Base.{
  ℕ, ◌≡◌, ◌↔◌, ◌⊎◌, inl, inr, refl, sym, ap, ap₂, subst, ◌∙◌, Bool, true, false, Bool-cases, List,
  [], ◌∷◌, ◌++◌, if◌then◌else◌, ◌==◌, ◌&&◌, ◌||◌, arith, ==→eq, ==→ne,
}
use assignment1_cs.Grep.{
  accepts, asterisk, dollar, dot, caret, at_end, match_char, matchstar, matchhere, match_loop,
  match,
}
use assignment1_cs.Grep.Language.{
  one, many, Word, nil, char, stop, more, Pattern, with_item, parse, Begins, many-inversion,
  one-inversion, nil-inversion,
}

-- A continuation of the matcher that decides a pattern.
record Decides (here : List ℕ → Bool) (p : Pattern) : Type 0 where
  sound : (text : List ℕ) → here text ≡ true → Begins p text
  complete : (text : List ℕ) → Begins p text → here text ≡ true

flip_accepts : (c t : ℕ) → (t == c || c == dot) ≡ accepts c t
flip_accepts c t = ground arith

or_true : (a b : Bool) → (a || b) ≡ true → (a ≡ true) ⊎ (b ≡ true)
or_true a b h = ground arith

and_true : (a b : Bool) → (a && b) ≡ true → (a ≡ true) × (b ≡ true)
and_true a b h = ground arith

or_right : (a b : Bool) → b ≡ true → (a || b) ≡ true
or_right a b h = ground arith

cons_head : {x y : ℕ} {xs ys : List ℕ} → ◌≡◌ {A = List ℕ} (x ∷ xs) (y ∷ ys) → x ≡ y
cons_head h = cc

cons_tail : {x y : ℕ} {xs ys : List ℕ} → ◌≡◌ {A = List ℕ} (x ∷ xs) (y ∷ ys) → xs ≡ ys
cons_tail h = cc

module _ (c : ℕ) (here : List ℕ → Bool) (p : Pattern) (d : Decides here p) where
  Begins-stop : {text : List ℕ} → Begins p text → Begins (with_item (many c) p) text
  Begins-stop b = record {
    word = b.word;
    post = b.post;
    split = b.split;
    fits = stop c b.fits;
    ends = b.ends;
  }

  Begins-more :
      (t : ℕ) {text : List ℕ}
      → accepts c t ≡ true
      → Begins (with_item (many c) p) text
      → Begins (with_item (many c) p) (t ∷ text)
  Begins-more t a b = record {
    word = t ∷ b.word;
    post = b.post;
    split = ap (λ l. t ∷ l) b.split;
    fits = more c t a b.fits;
    ends = b.ends;
  }

  matchstar_sound :
      (text : List ℕ) → matchstar c here text ≡ true → Begins (with_item (many c) p) text
  unfolding matchstar
  matchstar_sound [] h = Begins-stop (d.sound [] h)
  matchstar_sound (t ∷ ts) h = elim (or_true (here (t ∷ ts)) _ h) [
    | inl now ↦ Begins-stop (d.sound (t ∷ ts) now)
    | inr later ↦
        let (a, rest) = and_true (t == c || c == dot) (matchstar c here ts) later in
        Begins-more t (sym (flip_accepts c t) ∙ a) (matchstar_sound ts rest)
  ]

  matchstar_complete :
      (text w post : List ℕ)
      → text ≡ w ++ post
      → Word (many c ∷ p.items) w
      → (p.to_end ≡ true → post ≡ [])
      → matchstar c here text ≡ true
  unfolding matchstar
  matchstar_complete [] w post e f ends = elim (many-inversion f) [
    | inl f' ↦ d.complete [] (record { word = w; post = post; split = e; fits = f'; ends = ends })
    | inr (x, v, ew, a, f') ↦
        let clash : [] ≡ x ∷ (v ++ post) = e ∙ ap (λ l. l ++ post) ew in cc clash
  ]
  matchstar_complete (t ∷ ts) w post e f ends = elim (many-inversion f) [
    | inl f' ↦
        rw (
          d.complete (t ∷ ts) (record { word = w; post = post; split = e; fits = f'; ends = ends }))
    | inr (x, v, ew, a, f') ↦
        let e' : t ∷ ts ≡ x ∷ (v ++ post) = e ∙ ap (λ l. l ++ post) ew in
        let head : t ≡ x = cons_head e' in
        or_right (here (t ∷ ts)) _
          (simp (flip_accepts, head, a) (matchstar_complete ts v post (cons_tail e') f' ends))
  ]

  char_sound : (text : List ℕ) → match_char c here text ≡ true → Begins (with_item (one c) p) text
  char_sound [] h = cc
  char_sound (t ∷ ts) h = elim (Bool-cases (accepts c t)) [
    | inl a ↦
        let b : Begins p ts = d.sound ts (rw a at h) in
        record {
          word = t ∷ b.word;
          post = b.post;
          split = ap (λ l. t ∷ l) b.split;
          fits = char c t a b.fits;
          ends = b.ends;
        }
    | inr a ↦ let clash : false ≡ true = rw a at h in cc clash
  ]

  char_complete :
      (text : List ℕ) → Begins (with_item (one c) p) text → match_char c here text ≡ true
  char_complete [] b =
      let (x, v, ew, a, f) = one-inversion b.fits in
      let clash : [] ≡ x ∷ (v ++ b.post) = b.split ∙ ap (λ l. l ++ b.post) ew in cc clash
  char_complete (t ∷ ts) b =
      let (x, v, ew, a, f) = one-inversion b.fits in
      let e : t ∷ ts ≡ x ∷ (v ++ b.post) = b.split ∙ ap (λ l. l ++ b.post) ew in
      let a' : accepts c t ≡ true = ap (accepts c) (cons_head e) ∙ a in
      rw a' (
        d.complete ts
          (record { word = v; post = b.post; split = cons_tail e; fits = f; ends = b.ends }))

end_sound :
    (text : List ℕ) → at_end text ≡ true → Begins (record { items = []; to_end = true }) text
end_sound [] h = record { word = []; post = []; split = refl; fits = nil; ends = λ _. refl }
end_sound (t ∷ ts) h = cc

end_complete :
    (text : List ℕ) → Begins (record { items = []; to_end = true }) text → at_end text ≡ true
end_complete text b = ap at_end (b.split ∙ ap₂ ◌++◌ (nil-inversion b.fits) (b.ends refl))

empty-Begins : (text : List ℕ) → Begins (parse []) text
empty-Begins text = record { word = []; post = text; split = refl; fits = nil; ends = λ h. cc }

empty-Decides : Decides (matchhere []) (parse [])
unfolding matchhere
empty-Decides = record { sound = λ text h. empty-Begins text; complete = λ text b. refl }

Decides-of :
    {f g : List ℕ → Bool} {p : Pattern} → ((t : List ℕ) → f t ≡ g t) → Decides g p → Decides f p
Decides-of same d = record {
  sound = λ t h. d.sound t (sym (same t) ∙ h);
  complete = λ t b. same t ∙ d.complete t b;
}

char-Decides :
    (c : ℕ) (here : List ℕ → Bool) (p : Pattern)
    → Decides here p
    → Decides (match_char c here) (with_item (one c) p)
char-Decides c here p d = record {
  sound = char_sound c here p d;
  complete = char_complete c here p d;
}

star-Decides :
    (c : ℕ) (here : List ℕ → Bool) (p : Pattern)
    → Decides here p
    → Decides (matchstar c here) (with_item (many c) p)
star-Decides c here p d = record {
  sound = matchstar_sound c here p d;
  complete = λ t b. matchstar_complete c here p d t b.word b.post b.split b.fits b.ends;
}

matchhere-Decides : (re : List ℕ) → Decides (matchhere re) (parse re)
unfolding matchhere
matchhere-Decides [] = empty-Decides
matchhere-Decides (c ∷ []) = elim (Bool-cases (c == dollar)) [
  | inl h ↦ rw h (Decides-of (λ t. rw h) (record { sound = end_sound; complete = end_complete }))
  | inr h ↦ rw h (Decides-of (λ t. rw h) (char-Decides c (matchhere []) (parse []) empty-Decides))
]
matchhere-Decides (c ∷ d ∷ re) = elim (Bool-cases (d == asterisk)) [
  | inl h ↦
      rw h
        (Decides-of (λ t. rw h) (star-Decides c (matchhere re) (parse re) (matchhere-Decides re)))
  | inr h ↦ rw h (
      Decides-of (λ t. rw h)
        (char-Decides c (matchhere (d ∷ re)) (parse (d ∷ re)) (matchhere-Decides (d ∷ re))))
]

-- `matchhere` accepts a text exactly if the text begins with a string of the language that the
-- pattern denotes.
pub matchhere_iff : (re text : List ℕ) → (matchhere re text ≡ true) ↔ Begins (parse re) text
matchhere_iff re text = ((matchhere-Decides re).sound text, (matchhere-Decides re).complete text)

match_loop_sound :
    (re text : List ℕ)
    → match_loop re text ≡ true
    → (pre post : List ℕ) × (text ≡ pre ++ post) × Begins (parse re) post
unfolding match_loop
match_loop_sound re [] h = ([], [], refl, (matchhere_iff re []).0 h)
match_loop_sound re (t ∷ ts) h = elim (or_true (matchhere re (t ∷ ts)) _ h) [
  | inl now ↦ ([], t ∷ ts, refl, (matchhere_iff re (t ∷ ts)).0 now)
  | inr later ↦
      let (pre, post, e, b) = match_loop_sound re ts later in (t ∷ pre, post, ap (λ l. t ∷ l) e, b)
]

match_loop_complete :
    (re pre post : List ℕ) → Begins (parse re) post → match_loop re (pre ++ post) ≡ true
unfolding match_loop
match_loop_complete re [] [] b = (matchhere_iff re []).1 b
match_loop_complete re [] (t ∷ ts) b = rw ((matchhere_iff re (t ∷ ts)).1 b)
match_loop_complete re (x ∷ pre) post b =
    rw (match_loop_complete re pre post b) (or_right (matchhere re (x ∷ (pre ++ post))) true refl)

-- `match` accepts a text for a non-empty pattern exactly if some suffix of the text, the whole
-- text when the pattern starts with `^`, begins with a string of the language that the rest of the
-- pattern denotes.
pub match_iff :
    (c : ℕ) (re text : List ℕ)
    → (match (c ∷ re) text ≡ true) ↔ (
        (pre post : List ℕ) × (text ≡ pre ++ post)
        × (c ≡ caret → pre ≡ [])
        × Begins (if c == caret then parse re else parse (c ∷ re)) post)
unfolding match
match_iff c re text = elim (Bool-cases (c == caret)) [
  | inl h ↦
      rw (h, match)
        (
          (λ g. ([], text, refl, (λ _. refl), (matchhere_iff re text).0 g)),
          (λ (pre, post, e, first, b). (matchhere_iff re text).1 (
              subst (Begins (parse re)) (sym (e ∙ ap (λ l. l ++ post) (first (==→eq c caret h))))
                b)),
        )
  | inr h ↦
      rw (h, match)
        (
          (λ g.
              let (pre, post, e, b) = match_loop_sound (c ∷ re) text g in
              (pre, post, e, (λ q. absurd (==→ne c caret h q)), b)),
          (λ (pre, post, e, first, b).
              ap (match_loop (c ∷ re)) e ∙ match_loop_complete (c ∷ re) pre post b),
        )
]
