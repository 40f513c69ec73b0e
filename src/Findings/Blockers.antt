-- ===== src/Findings/Blockers.antt =====
-- The blockers of a plan, one for each address.
use revisium_engine.Base.{
  String, true, false, Option, none, some, List, [], ◌∷◌, ◌++◌, Eq-String, ◌==◌, ◌&&◌, ◌||◌, ◌≡◌,
  refl, ◌∙◌, ap, arith, Bool-cases, inl, inr, ◌↔◌, List-cases,
}
use text.Mathlib.TextEquality.{eq_iff}
use revisium_engine.Findings.{
  PlanBlocker, same_part, same_address, has_address, distinct_from, distinct_blockers,
}

same_part_iff : (a b : Option String) → (same_part a b ≡ true) ↔ (a ≡ b)
same_part_iff none none = (λ h. refl, λ e. refl)
same_part_iff none (some b) = (λ h. cc, λ e. cc)
same_part_iff (some a) none = (λ h. cc, λ e. cc)
same_part_iff (some a) (some b) = (λ h. ap some ((eq_iff a b).0 h), λ e. ground (arith, eq_iff a b))

-- The same for every blocker that is compared with it.
same_address_left :
    (a b c : PlanBlocker) → same_address a b ≡ true → same_address a c ≡ same_address b c
unfolding same_address
same_address_left a b c h =
    let code = (eq_iff a.code b.code).0 (ground arith) in
    let table = (same_part_iff a.table_id b.table_id).0 (ground arith) in
    let row = (same_part_iff a.row_id b.row_id).0 (ground arith) in
    let path = (same_part_iff a.path b.path).0 (ground arith) in
    ap
      (λ x.
        (x == c.code && same_part a.table_id c.table_id)
        && (same_part a.row_id c.row_id && same_part a.path c.path))
      code
    ∙ ap
        (λ x.
          (b.code == c.code && same_part x c.table_id)
          && (same_part a.row_id c.row_id && same_part a.path c.path))
        table
    ∙ ap
        (λ x.
          (b.code == c.code && same_part b.table_id c.table_id)
          && (same_part x c.row_id && same_part a.path c.path))
        row
    ∙ ap
        (λ x.
          (b.code == c.code && same_part b.table_id c.table_id)
          && (same_part b.row_id c.row_id && same_part x c.path))
        path

pub same_address_refl : (a : PlanBlocker) → same_address a a ≡ true
unfolding same_address
same_address_refl a = ground (
  arith,
  eq_iff a.code a.code,
  same_part_iff a.table_id a.table_id,
  same_part_iff a.row_id a.row_id,
  same_part_iff a.path a.path,
)

pub has-append :
    (l r : List PlanBlocker) (b : PlanBlocker)
    → has_address (l ++ r) b ≡ (has_address l b || has_address r b)
unfolding has_address
has-append [] r b = refl
has-append (x ∷ l) r b = ground (arith, has-append l r b)

has-concat :
    (l : List PlanBlocker) (a b : PlanBlocker)
    → has_address (l ++ a ∷ []) b ≡ (has_address l b || same_address a b)
unfolding has_address
has-concat [] a b = ground arith
has-concat (x ∷ l) a b = ground (arith, has-concat l a b)

has-same :
    (l : List PlanBlocker) (a b : PlanBlocker)
    → has_address l a ≡ true
    → same_address a b ≡ true
    → has_address l b ≡ true
unfolding has_address
has-same [] a b h s = ground arith
has-same (x ∷ l) a b h s = elim (Bool-cases (same_address x a)) [
  | inl here ↦ ground (arith, same_address_left x a b here)
  | inr later ↦ ground (arith, has-same l a b (ground arith) s)
]

distinct_from-has :
    (distinct l : List PlanBlocker) (b : PlanBlocker)
    → has_address (distinct_from distinct l) b ≡ (has_address distinct b || has_address l b)
unfolding distinct_from has_address
distinct_from-has distinct [] b = ground arith
distinct_from-has distinct (a ∷ l) b = elim (Bool-cases (has_address distinct a)) [
  | inl old ↦
      ground (
        arith,
        distinct_from-has distinct l b,
        has-same distinct a b,
        Bool-cases (same_address a b),
      )
  | inr new ↦ ground (arith, distinct_from-has (distinct ++ a ∷ []) l b, has-concat distinct a b)
]

-- No two blockers of a list have the same address.
abbrev pub Separate : List PlanBlocker → Type 0
Separate [] = Unit
Separate (b ∷ bs) = (has_address bs b ≡ false) × Separate bs

same_address_sym : (a b : PlanBlocker) → same_address a b ≡ true → same_address b a ≡ true
same_address_sym a b h = ground (arith, same_address_left a b a h, same_address_refl a)

Separate-concat :
    (l : List PlanBlocker) (a : PlanBlocker)
    → Separate l
    → has_address l a ≡ false
    → Separate (l ++ a ∷ [])
unfolding has_address
Separate-concat [] a s h = (refl, tt)
Separate-concat (x ∷ l) a s h = (
  ground (arith, has-concat l a x, same_address_sym a x, Bool-cases (same_address a x)),
  Separate-concat l a s.1 (ground arith),
)

distinct_from-Separate :
    (distinct l : List PlanBlocker) → Separate distinct → Separate (distinct_from distinct l)
unfolding distinct_from
distinct_from-Separate distinct [] s = s
distinct_from-Separate distinct (a ∷ l) s = elim (Bool-cases (has_address distinct a)) [
  | inl old ↦ rw old (distinct_from-Separate distinct l s)
  | inr new ↦
      rw new (distinct_from-Separate (distinct ++ a ∷ []) l (Separate-concat distinct a s new))
]

-- The distinct blockers have each address of the given ones, no other, and none twice.
pub distinct_blockers-addresses :
    (l : List PlanBlocker)
    → Separate (distinct_blockers l)
      × ((b : PlanBlocker) → has_address (distinct_blockers l) b ≡ has_address l b)
unfolding distinct_blockers has_address
distinct_blockers-addresses l = (distinct_from-Separate [] l tt, λ b. distinct_from-has [] l b)

-- Only no blockers have no distinct blockers.
pub distinct_blockers-nil : (l : List PlanBlocker) → distinct_blockers l ≡ [] → l ≡ []
unfolding distinct_blockers has_address
distinct_blockers-nil l h = elim (List-cases l) [
  | inl nothing ↦ nothing
  | inr (b, rest, e) ↦ ground (
    arith,
    distinct_from-has [] l b,
    ap (λ x. has_address x b) h,
    ap (λ x. has_address x b) e,
    same_address_refl b,
  )
]
