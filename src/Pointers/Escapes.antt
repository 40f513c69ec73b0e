-- ===== src/Pointers/Escapes.antt =====
-- The escapes of a segment in json-pointer.ts and their inverse.
use revisium_engine.Base.{
  ℕ, false, [], ◌∷◌, ◌++◌, ◌≡◌, refl, sym, ◌∙◌, ap, Eq-ℕ, ◌==◌, ◌&&◌, ◌||◌, arith, Bool-cases, inl,
  inr, includes, eq_of_beq,
}
use revisium_engine.Pointers.{
  Text, slash, tilde, has_invalid_escape, escapes_nothing, replace_pair, replace_unit,
  escape_segment, unescape_segment,
}

replace_pair-other :
    (a b by c : ℕ) (text : Text)
    → (c == a) ≡ false
    → replace_pair a b by (c ∷ text) ≡ c ∷ replace_pair a b by text
unfolding replace_pair
replace_pair-other a b by c [] h = refl
replace_pair-other a b by c (d ∷ text) h = ground (arith, h)

-- The three kinds of unit, escaped.
escape_segment-tilde :
    (text : Text) → escape_segment (tilde ∷ text) ≡ tilde ∷ 48 ∷ escape_segment text
unfolding escape_segment replace_unit
escape_segment-tilde text = refl

escape_segment-slash :
    (text : Text) → escape_segment (slash ∷ text) ≡ tilde ∷ 49 ∷ escape_segment text
unfolding escape_segment replace_unit
escape_segment-slash text = refl

escape_segment-other :
    (c : ℕ) (text : Text)
    → (c == tilde) ≡ false
    → (c == slash) ≡ false
    → escape_segment (c ∷ text) ≡ c ∷ escape_segment text
unfolding escape_segment replace_unit
escape_segment-other c text h k = ground (arith, h, k)

-- The three kinds of escaped unit, read back.
unescape_segment-tilde :
    (text : Text) → unescape_segment (tilde ∷ 48 ∷ text) ≡ tilde ∷ unescape_segment text
unfolding unescape_segment replace_pair
unescape_segment-tilde text =
    ap (λ t. replace_pair tilde 48 tilde (tilde ∷ t))
      (replace_pair-other tilde 49 slash 48 text refl)

unescape_segment-slash :
    (text : Text) → unescape_segment (tilde ∷ 49 ∷ text) ≡ slash ∷ unescape_segment text
unfolding unescape_segment replace_pair
unescape_segment-slash text =
    replace_pair-other tilde 48 tilde slash (replace_pair tilde 49 slash text) refl

unescape_segment-other :
    (c : ℕ) (text : Text)
    → (c == tilde) ≡ false
    → unescape_segment (c ∷ text) ≡ c ∷ unescape_segment text
unfolding unescape_segment
unescape_segment-other c text h =
    ap (replace_pair tilde 48 tilde) (replace_pair-other tilde 49 slash c text h)
    ∙ replace_pair-other tilde 48 tilde c (replace_pair tilde 49 slash text) h

pub unescape_segment-escape_segment :
    (segment : Text) → unescape_segment (escape_segment segment) ≡ segment
unfolding unescape_segment escape_segment replace_unit replace_pair
unescape_segment-escape_segment [] = refl
unescape_segment-escape_segment (c ∷ text) = elim (Bool-cases (c == tilde)) [
  | inl same ↦
      ap (λ d. unescape_segment (escape_segment (d ∷ text))) (eq_of_beq c tilde same)
      ∙ ap unescape_segment (escape_segment-tilde text)
      ∙ unescape_segment-tilde (escape_segment text)
      ∙ ap (λ t. tilde ∷ t) (unescape_segment-escape_segment text)
      ∙ ap (λ d. d ∷ text) (sym (eq_of_beq c tilde same))
  | inr other ↦ elim (Bool-cases (c == slash)) [
    | inl same ↦
        ap (λ d. unescape_segment (escape_segment (d ∷ text))) (eq_of_beq c slash same)
        ∙ ap unescape_segment (escape_segment-slash text)
        ∙ unescape_segment-slash (escape_segment text)
        ∙ ap (λ t. slash ∷ t) (unescape_segment-escape_segment text)
        ∙ ap (λ d. d ∷ text) (sym (eq_of_beq c slash same))
    | inr plain ↦
        ap unescape_segment (escape_segment-other c text other plain)
        ∙ unescape_segment-other c (escape_segment text) other
        ∙ ap (λ t. c ∷ t) (unescape_segment-escape_segment text)
  ]
]

-- What is escaped has no slash, and adds no invalid escape to what follows it.
pub includes-escape_segment : (segment : Text) → includes (escape_segment segment) slash ≡ false
unfolding escape_segment replace_unit
includes-escape_segment [] = refl
includes-escape_segment (c ∷ text) = elim (Bool-cases (c == tilde)) [
  | inl same ↦
      ap (λ d. includes (escape_segment (d ∷ text)) slash) (eq_of_beq c tilde same)
      ∙ includes-escape_segment text
  | inr other ↦ elim (Bool-cases (c == slash)) [
    | inl same ↦
        ap (λ d. includes (escape_segment (d ∷ text)) slash) (eq_of_beq c slash same)
        ∙ includes-escape_segment text
    | inr plain ↦
        ap (λ t. includes t slash) (escape_segment-other c text other plain)
        ∙ ap (λ b. b || includes (escape_segment text) slash) plain
        ∙ includes-escape_segment text
  ]
]

pub has_invalid_escape-escape_segment :
    (segment rest : Text)
    → has_invalid_escape (escape_segment segment ++ rest) ≡ has_invalid_escape rest
unfolding escape_segment replace_unit has_invalid_escape
has_invalid_escape-escape_segment [] rest = refl
has_invalid_escape-escape_segment (c ∷ text) rest = elim (Bool-cases (c == tilde)) [
  | inl same ↦
      ap (λ d. has_invalid_escape (escape_segment (d ∷ text) ++ rest)) (eq_of_beq c tilde same)
      ∙ has_invalid_escape-escape_segment text rest
  | inr other ↦ elim (Bool-cases (c == slash)) [
    | inl same ↦
        ap (λ d. has_invalid_escape (escape_segment (d ∷ text) ++ rest)) (eq_of_beq c slash same)
        ∙ has_invalid_escape-escape_segment text rest
    | inr plain ↦
        ap (λ t. has_invalid_escape (t ++ rest)) (escape_segment-other c text other plain)
        ∙ ap
            (λ b.
              b && escapes_nothing (escape_segment text ++ rest)
              || has_invalid_escape (escape_segment text ++ rest))
            other
        ∙ has_invalid_escape-escape_segment text rest
  ]
]

blank : escape_segment (unescape_segment ([])) ≡ []
unfolding unescape_segment escape_segment replace_unit replace_pair
blank = refl

plain_unit :
    (c : ℕ) (text : Text)
    → (c == tilde) ≡ false
    → (c == slash) ≡ false
    → escape_segment (unescape_segment text) ≡ text
    → escape_segment (unescape_segment (c ∷ text)) ≡ c ∷ text
plain_unit c text other plain same =
    ap escape_segment (unescape_segment-other c text other)
    ∙ escape_segment-other c (unescape_segment text) other plain
    ∙ ap (λ t. c ∷ t) same

escaped_unit :
    (d : ℕ) (text : Text)
    → escapes_nothing (d ∷ text) ≡ false
    → escape_segment (unescape_segment text) ≡ text
    → escape_segment (unescape_segment (tilde ∷ d ∷ text)) ≡ tilde ∷ d ∷ text
escaped_unit d text digit same = elim (Bool-cases (d == 48)) [
  | inl zeroth ↦
      ap (λ e. escape_segment (unescape_segment (tilde ∷ e ∷ text))) (eq_of_beq d 48 zeroth)
      ∙ ap escape_segment (unescape_segment-tilde text)
      ∙ escape_segment-tilde (unescape_segment text)
      ∙ ap (λ t. tilde ∷ 48 ∷ t) same
      ∙ ap (λ e. tilde ∷ e ∷ text) (sym (eq_of_beq d 48 zeroth))
  | inr other ↦
      let first = eq_of_beq d 49 (ground arith) in
      ap (λ e. escape_segment (unescape_segment (tilde ∷ e ∷ text))) first
      ∙ ap escape_segment (unescape_segment-slash text)
      ∙ escape_segment-slash (unescape_segment text)
      ∙ ap (λ t. tilde ∷ 49 ∷ t) same
      ∙ ap (λ e. tilde ∷ e ∷ text) (sym first)
]

-- A segment without a slash and without an invalid escape is the escape of what it means.
pub escape_segment-unescape_segment :
    (text : Text)
    → includes text slash ≡ false
    → has_invalid_escape text ≡ false
    → escape_segment (unescape_segment text) ≡ text
unfolding has_invalid_escape
escape_segment-unescape_segment [] whole valid = blank
escape_segment-unescape_segment (c ∷ []) whole valid =
    plain_unit c [] (ground arith) (ground arith) blank
escape_segment-unescape_segment (c ∷ d ∷ text) whole valid = elim (Bool-cases (c == tilde)) [
  | inr other ↦
      plain_unit c (d ∷ text) other (ground arith)
        (escape_segment-unescape_segment (d ∷ text) (ground arith) (ground arith))
  | inl same ↦
      ap (λ e. escape_segment (unescape_segment (e ∷ d ∷ text))) (eq_of_beq c tilde same)
      ∙ escaped_unit d text (ground arith)
          (escape_segment-unescape_segment text (ground arith) (ground arith))
      ∙ ap (λ e. e ∷ d ∷ text) (sym (eq_of_beq c tilde same))
]
