-- ===== src/Detection/Values.antt =====
-- What is sent for a row that nobody edited.
use threat_lens.Base.{
  ◌≡◌, refl, List, Option, Text, [], some, trim, trim_start, ◌∷◌, ap, lookup_text, map, none, ◌∙◌,
  or_default,
}
use threat_lens.Base.Split.{split_parts, split, IsPlain, split_parts-append, split_parts_plain}
use threat_lens.Detection.{
  Value, Kind, finite_numbers, int_list_kind, number, numbers, ThresholdEntry, describe_value,
  join_comma, key, parse_value, raw_value, as_number, float_kind, int_kind, keep_finite,
}

trim_space : (s : Text) → trim (b' ' ∷ s) ≡ trim s
unfolding trim trim_start
trim_space s = refl

-- The kinds whose values the form can print and read back: a number, or a list that is not empty.
abbrev pub IsFit : {Num : Type 0} → Kind → Value Num → Type 0
IsFit int_list_kind (numbers (n ∷ ns)) = Unit
IsFit int_list_kind _ = ⊥
IsFit _ (number n) = Unit
IsFit _ (numbers ns) = ⊥

module _ {Num : Type 0} (show_number : Num → Text) (to_number : Text → Option Num)
    (to_number-show : (n : Num) → to_number (show_number n) ≡ some n)
    (trim-show : (n : Num) → trim (show_number n) ≡ show_number n)
    (show-IsPlain : (n : Num) → IsPlain b',' (show_number n)) where
  finite_numbers-cons :
      (n : Num) (parts : List Text)
      → finite_numbers to_number (show_number n ∷ parts) ≡ n ∷ finite_numbers to_number parts
  finite_numbers-cons n parts =
      ap (λ s. keep_finite (to_number s) (finite_numbers to_number parts)) (trim-show n)
      ∙ ap (λ o. keep_finite o (finite_numbers to_number parts)) (to_number-show n)

  finite_numbers-space :
      (part : Text) (parts : List Text)
      → finite_numbers to_number ((b' ' ∷ part) ∷ parts) ≡ finite_numbers to_number (part ∷ parts)
  finite_numbers-space part parts =
      ap (λ s. keep_finite (to_number s) (finite_numbers to_number parts)) (trim_space part)

  finite_numbers-split :
      (n : Num) (ns : List Num)
      → finite_numbers to_number (split b',' (join_comma (map show_number (n ∷ ns)))) ≡ n ∷ ns
  unfolding split_parts
  finite_numbers-split n [] =
      ap (λ (pp : Text × List Text). finite_numbers to_number (pp.0 ∷ pp.1))
        (split_parts_plain b',' (show_number n) (show-IsPlain n))
      ∙ finite_numbers-cons n []
  finite_numbers-split n (m ∷ ns) =
      let rest = join_comma (map show_number (m ∷ ns)) in
      ap (λ (pp : Text × List Text). finite_numbers to_number (pp.0 ∷ pp.1))
        (split_parts-append b',' (show_number n) (b' ' ∷ rest) (show-IsPlain n) refl)
      ∙ finite_numbers-cons n (split b',' (b' ' ∷ rest))
      ∙ ap (◌∷◌ n) (
          finite_numbers-space (split_parts b',' rest).0 (split_parts b',' rest).1
          ∙ finite_numbers-split m ns)

  parse_value-shown :
      (kind : Kind) (value : Value Num)
      → IsFit kind value
      → parse_value to_number kind (describe_value show_number value) ≡ some value
  unfolding parse_value describe_value
  parse_value-shown int_kind (number n) fit = ap as_number (to_number-show n)
  parse_value-shown float_kind (number n) fit = ap as_number (to_number-show n)
  parse_value-shown int_list_kind (numbers (n ∷ ns)) fit =
      ap (λ l. some (numbers l)) (finite_numbers-split n ns)
  parse_value-shown int_list_kind (number n) fit = absurd fit
  parse_value-shown int_list_kind (numbers []) fit = absurd fit
  parse_value-shown int_kind (numbers ns) fit = absurd fit
  parse_value-shown float_kind (numbers ns) fit = absurd fit

  -- Saving a row that nobody edited sends the value that the server gave, whether it is a number or
  -- a list that is not empty, provided that a printed number reads back, and that it holds no
  -- comma and no blank at its ends.
  pub parse_value-raw :
      (entry : ThresholdEntry Num) (drafts : List (Text × Text))
      → IsFit entry.kind entry.value
      → lookup_text (key entry) drafts ≡ none
      → parse_value to_number entry.kind (raw_value show_number drafts entry) ≡ some entry.value
  parse_value-raw entry drafts fit h =
      ap
        (λ o.
          parse_value to_number entry.kind (or_default o (describe_value show_number entry.value)))
        h
      ∙ parse_value-shown entry.kind entry.value fit
