-- ===== src/Rules/Renaming.antt =====
-- What the replay relies on of the toolkit's renaming of foreign keys.
use revisium_engine.Base.{String, true, ◌≡◌, ◌≢◌, ◌⊎◌, includes, Eq-String}
use revisium_engine.Base.Result.{ok, >>=-eq-ok}
use revisium_engine.Rules.{Toolkit, foreign_keys_of, renamed_foreign_keys, ensure_recordable_change}

-- The patches for a rename take every reference to the old id to the new one, and add no other.
pub record RenamesForeignKeys {S : Type 0} (toolkit : Toolkit S) : Type 0 where
  pub law :
      (s s' : S) (id next : String)
      → toolkit.apply_patches s (toolkit.foreign_key_patches s id next) ≡ ok s'
      → (t : String) → includes (toolkit.foreign_keys s') t ≡ true
      → (t ≡ next) ⊎ ((includes (toolkit.foreign_keys s) t ≡ true) × (t ≢ id))

module _ {S : Type 0} (toolkit : Toolkit S) where
  pub renamed_foreign_keys-ok :
      (s s' : S) (id next : String)
      → RenamesForeignKeys toolkit
      → renamed_foreign_keys toolkit s id next ≡ ok s'
      → (t : String) → includes (foreign_keys_of toolkit s') t ≡ true
      → (t ≡ next) ⊎ ((includes (foreign_keys_of toolkit s) t ≡ true) × (t ≢ id))
  unfolding renamed_foreign_keys foreign_keys_of
  renamed_foreign_keys-ok s s' id next laws h t i =
      let patches = toolkit.foreign_key_patches s id next in
      let (renamed, e, rest) = >>=-eq-ok (toolkit.apply_patches s patches) _ h in
      let (_, _, done) = >>=-eq-ok (ensure_recordable_change toolkit renamed patches) _ rest in
      let same : renamed ≡ s' = cc in laws.law s s' id next (rw (← same) e) t i
