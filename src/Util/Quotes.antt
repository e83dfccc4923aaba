-- ===== src/Util/Quotes.antt =====
-- `encapsulate_in_quotes`, for the log of bans.
use mathlib.Core.Option
use banjax.Base.{
  ℕ, zero, suc, ◌+◌, ◌<◌, ◌≡◌, refl, ap, sym, ◌∙◌, ◌⊎◌, inl, inr, [], ◌∷◌, ◌++◌, Bytes, Option,
  none, some, length, ◌==◌, if◌then◌else◌, arith, append_assoc, take, drop, find, starts_with,
  take-append, drop-append, length-append, Bool-cases, drop-append-cons,
}

-- `s.find("\"", start_pos)`.
find_quote : ℕ → Bytes → Option ℕ
find_quote start_pos s = Option.map (λ i. start_pos + i) (find (34 ∷ []) (drop start_pos s))

-- `while ((start_pos = s.find("\"", start_pos)) != npos) { s.replace(start_pos, 1, "\\\""); start_pos += 2; }`
-- One round takes up a quote, so the length of the text is enough fuel.
pub quote_loop : ℕ → ℕ → Bytes → Bytes
quote_loop zero start_pos s = s
quote_loop (suc fuel) start_pos s = elim (find_quote start_pos s) [
  | none ↦ s
  | some i ↦ quote_loop fuel (i + 2) (take i s ++ (92 ∷ 34 ∷ drop (i + 1) s))
]

unfoldable pub encapsulate_in_quotes : Bytes → Bytes
unfolding quote_loop find_quote
encapsulate_in_quotes s = 34 ∷ (quote_loop (suc (length s)) 0 s ++ 34 ∷ [])

-- The text with a backslash in front of each quote, and a reader that takes them out again.
abbrev pub escaped : Bytes → Bytes
escaped [] = []
escaped (c ∷ cs) = if c == 34 then 92 ∷ 34 ∷ escaped cs else c ∷ escaped cs

abbrev FirstQuote : Bytes → Type 0
FirstQuote s =
    ((find (34 ∷ []) s ≡ none) × (escaped s ≡ s))
    ⊎ ((before : Bytes) × (after : Bytes) × (s ≡ before ++ (34 ∷ after))
        × (find (34 ∷ []) s ≡ some (length before))
        × (escaped s ≡ before ++ (92 ∷ 34 ∷ escaped after)))

first_quote : (s : Bytes) → FirstQuote s
unfolding find starts_with
first_quote [] = inl (refl, refl)
first_quote (c ∷ cs) = elim (Bool-cases (c == 34)) [
  | inl e ↦ inr ([], cs, ground arith, ground arith, ground arith)
  | inr n ↦ elim (first_quote cs) [
    | inl (f, g) ↦ inl (ground arith, ground arith)
    | inr (before, after, e, f, g) ↦
        inr (c ∷ before, after, ap (◌∷◌ c) e, ground arith, ground arith)
  ]
]

find_quote-append :
    (seen rest : Bytes) (o : Option ℕ)
    → find (34 ∷ []) rest ≡ o
    → find_quote (length seen) (seen ++ rest) ≡ Option.map (λ i. length seen + i) o
unfolding find_quote
find_quote-append seen rest o e =
    rw (drop-append seen rest) (ap (Option.map (λ i. length seen + i)) e)

quote_loop_stop : (fuel p : ℕ) (s : Bytes) → find_quote p s ≡ none → quote_loop (suc fuel) p s ≡ s
unfolding quote_loop
quote_loop_stop fuel p s e = rw (e, quote_loop)

quote_loop_round :
    (fuel p : ℕ) (before after : Bytes)
    → find_quote p (before ++ (34 ∷ after)) ≡ some (length before)
    → quote_loop (suc fuel) p (before ++ (34 ∷ after))
      ≡ quote_loop fuel (length (before ++ 92 ∷ 34 ∷ [])) ((before ++ 92 ∷ 34 ∷ []) ++ after)
unfolding quote_loop
quote_loop_round fuel p before after e =
    rw (e, quote_loop)
      (rw (take-append before (34 ∷ after), drop-append-cons before 34 after)
        (rw (length-append before (92 ∷ 34 ∷ []), append_assoc)))

quote_loop-escaped :
    (fuel : ℕ) (seen rest : Bytes)
    → length rest < fuel
    → quote_loop fuel (length seen) (seen ++ rest) ≡ seen ++ escaped rest
quote_loop-escaped zero seen rest h = absurd (omega arith)
quote_loop-escaped (suc fuel) seen rest h = elim (first_quote rest) [
  | inl (f, g) ↦
      quote_loop_stop fuel _ _ (find_quote-append seen rest none f) ∙ ap (◌++◌ seen) (sym g)
  | inr (before, after, e, f, g) ↦
      let here = seen ++ before in
      let whole : seen ++ rest ≡ here ++ (34 ∷ after) =
        ap (◌++◌ seen) e ∙ sym (append_assoc seen before _) in
      let found : find_quote (length seen) (here ++ (34 ∷ after)) ≡ some (length here) =
        rw whole at (find_quote-append seen rest (some (length before)) f)
        ∙ ap some (sym (length-append seen before)) in
      let less : length after < fuel =
        omega (arith, ap length e, length-append {0} before (34 ∷ after)) in
      ap (quote_loop (suc fuel) (length seen)) whole
      ∙ quote_loop_round fuel (length seen) here after found
      ∙ quote_loop-escaped fuel (here ++ 92 ∷ 34 ∷ []) after less
      ∙ rw g (simp append_assoc)
]

-- The loop puts one backslash in front of each quote of the text, and the result stands in quotes.
pub encapsulate_in_quotes-escaped :
    (s : Bytes) → encapsulate_in_quotes s ≡ 34 ∷ (escaped s ++ 34 ∷ [])
unfolding encapsulate_in_quotes
encapsulate_in_quotes-escaped s =
    ap (λ t. 34 ∷ (t ++ 34 ∷ [])) (quote_loop-escaped (suc (length s)) [] s (omega arith))
