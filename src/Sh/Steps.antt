-- ===== src/Sh/Steps.antt =====
-- What the parsing functions do at the symbols that stand between printed commands.
use assignment1_cs.Base.{
  ℕ, suc, ◌≡◌, refl, ◌∙◌, inl, inr, true, false, List, [], ◌∷◌, length, arith,
}
use assignment1_cs.Sh.{
  Cmd, exec, pipe, list, back, Parse, parsed, and_then, among, skip_space, gettoken, starts,
  token_of, parseredirs, parseargs, parseexec, parseblock, parsepipe, parsetail, parseline,
}
use assignment1_cs.Sh.Tokens.{Bare, skip_space-Bare}
use assignment1_cs.Sh.Words.{
  IsEnd, Redirs, AllRedirs, wrap, print_redirs, redirs-Bare, parseredirs-wrap,
}

-- A pipeline ends here.
pub record IsPipeEnd (s : List ℕ) : Type 0 where
  pub end : IsEnd s
  pub no_bar : starts (124 ∷ []) s ≡ false

-- A line ends here.
pub record IsLineEnd (s : List ℕ) : Type 0 where
  pub pipe_end : IsPipeEnd s
  pub no_ampersand : starts (38 ∷ []) s ≡ false
  pub no_semicolon : starts (59 ∷ []) s ≡ false

pub bar-IsEnd : (s : List ℕ) → IsEnd (124 ∷ s)
unfolding starts among
bar-IsEnd s = record {
  bare = refl;
  ends = refl;
  no_redir = refl;
  no_block = refl;
  stops = inr refl;
}

pub ampersand-IsPipeEnd : (s : List ℕ) → IsPipeEnd (38 ∷ s)
unfolding starts among
ampersand-IsPipeEnd s = record {
  end = record { bare = refl; ends = refl; no_redir = refl; no_block = refl; stops = inr refl };
  no_bar = refl;
}

pub semicolon-IsPipeEnd : (s : List ℕ) → IsPipeEnd (59 ∷ s)
unfolding starts among
semicolon-IsPipeEnd s = record {
  end = record { bare = refl; ends = refl; no_redir = refl; no_block = refl; stops = inr refl };
  no_bar = refl;
}

pub close-IsLineEnd : (s : List ℕ) → IsLineEnd (41 ∷ s)
unfolding starts among
close-IsLineEnd s = record {
  pipe_end = record {
    end = record { bare = refl; ends = refl; no_redir = refl; no_block = refl; stops = inr refl };
    no_bar = refl;
  };
  no_ampersand = refl;
  no_semicolon = refl;
}

pub nil-IsLineEnd : IsLineEnd []
unfolding starts
nil-IsLineEnd = record {
  pipe_end = record {
    end = record { bare = tt; ends = tt; no_redir = refl; no_block = refl; stops = inl refl };
    no_bar = refl;
  };
  no_ampersand = refl;
  no_semicolon = refl;
}

module _ (line : List ℕ → Parse Cmd) where
  pub parseexec-open :
      (t u : List ℕ)
      → skip_space t ≡ u
      → starts (40 ∷ []) u ≡ false
      → parseexec line t
        ≡ and_then
            (parseredirs (suc (length u)) (exec []) u)
            (λ ret v. parseargs (suc (length v)) 0 ret v)
  unfolding parseexec
  parseexec-open t u e h = rw (e, h, parseexec, e) refl

  parseexec-parseblock :
      (t u : List ℕ)
      → skip_space t ≡ u
      → starts (40 ∷ []) u ≡ true
      → parseexec line t ≡ parseblock line u
  unfolding parseexec
  parseexec-parseblock t u e h = rw (e, h, parseexec, e) refl

  -- A printed block, with redirections behind it.
  pub parseexec-block :
      (t x : List ℕ) (cmd : Cmd) (rs : Redirs) (s : List ℕ)
      → AllRedirs rs
      → IsEnd s
      → skip_space t ≡ 40 ∷ x
      → line (skip_space x) ≡ parsed cmd (41 ∷ print_redirs rs s)
      → parseexec line t ≡ parsed (wrap rs cmd) s
  unfolding parseblock and_then starts among skip_space gettoken token_of
  parseexec-block t x cmd rs s all end e inner =
      let R = print_redirs rs s in
      let bare = skip_space-Bare R (redirs-Bare rs s all end) in
      parseexec-parseblock t (40 ∷ x) e refl
      ∙ rw (inner, bare) (parseredirs-wrap rs (suc (length R)) cmd s all end (omega arith))

  pub parsepipe-last :
      (fuel : ℕ) (t : List ℕ) (cmd : Cmd) (s : List ℕ)
      → IsPipeEnd s
      → parseexec line t ≡ parsed cmd s
      → parsepipe line (suc fuel) t ≡ parsed cmd s
  unfolding parsepipe and_then
  parsepipe-last fuel t cmd s end e =
      let bare = skip_space-Bare s end.end.bare in
      rw (e, and_then, bare, end.no_bar, and_then, bare) refl

  pub parsepipe-bar :
      (fuel : ℕ) (t : List ℕ) (left right : Cmd) (x s : List ℕ)
      → parseexec line t ≡ parsed left (124 ∷ x)
      → parsepipe line fuel (skip_space x) ≡ parsed right s
      → parsepipe line (suc fuel) t ≡ parsed (pipe left right) s
  unfolding parsepipe and_then starts among skip_space gettoken token_of
  parsepipe-bar fuel t left right x s e k = rw (e, k) refl

  pub parsetail-end :
      (fuel : ℕ) (cmd : Cmd) (s : List ℕ)
      → IsLineEnd s
      → parsetail line (suc fuel) cmd s ≡ parsed cmd s
  unfolding parsetail
  parsetail-end fuel cmd s end =
      let bare = skip_space-Bare s end.pipe_end.end.bare in
      rw (bare, end.no_ampersand, parsetail, bare, bare, end.no_semicolon, parsetail, bare, bare)
        refl

  pub parsetail-ampersand :
      (fuel : ℕ) (cmd : Cmd) (s : List ℕ)
      → Bare s
      → parsetail line (suc fuel) cmd (38 ∷ s) ≡ parsetail line fuel (back cmd) s
  unfolding parsetail starts among skip_space gettoken token_of
  parsetail-ampersand fuel cmd s bare = rw (skip_space-Bare s bare) refl

  pub parsetail-semicolon :
      (fuel : ℕ) (cmd right : Cmd) (x s : List ℕ)
      → line (skip_space x) ≡ parsed right s
      → parsetail line (suc fuel) cmd (59 ∷ x) ≡ parsed (list cmd right) s
  unfolding parsetail and_then starts among skip_space gettoken token_of
  parsetail-semicolon fuel cmd right x s e = rw e refl

pub parseline-pipe :
    (fuel : ℕ) (t : List ℕ) (cmd : Cmd) (s : List ℕ)
    → parsepipe (parseline fuel) (suc (length t)) t ≡ parsed cmd s
    → parseline (suc fuel) t ≡ parsetail (parseline fuel) (suc (length s)) cmd s
unfolding parseline and_then
parseline-pipe fuel t cmd s e = rw e refl
