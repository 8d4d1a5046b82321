-- ===== src/InternalAuth/Blob.antt =====
-- The message that a passport signs determines what it was made from: the checks on the strings that
-- callers supply keep the separators out of them.
use chromium_log.Prelude.{
  ℕ, ◌≡◌, ◌≢◌, ◌∙◌, refl, sym, true, false, [], ◌∷◌, ◌++◌, arith, append_assoc,
}
use chromium_log.InternalAuth.Defs.{
  Bytes, VarValueMap, Base, item_separator, var_value_separator, has_byte, is_empty, all_allowed,
  is_domain_sane, is_var_sane, is_value_sane, are_items_sane, is_var_value_map_sane,
  convert_var_value_map_to_blob, passport_blob,
}

-- A string ends at its first separator.
split_at :
    (b : ℕ) (a a' x y : Bytes)
    → has_byte b a ≡ false
    → has_byte b a' ≡ false
    → a ++ b ∷ x ≡ a' ++ b ∷ y
    → (a ≡ a') × (x ≡ y)
split_at b [] [] x y h h' e = (refl, cc)
split_at b [] (c ∷ a') x y h h' e = ground arith
split_at b (c ∷ a) [] x y h h' e = ground arith
split_at b (c ∷ a) (c' ∷ a') x y h h' e = ground (arith, split_at b a a' x y)

-- The characters of a variable's name are not separators.
allowed-separators :
    (var : Bytes)
    → all_allowed var ≡ true
    → (has_byte item_separator var ≡ false) × (has_byte var_value_separator var ≡ false)
allowed-separators [] h = (refl, refl)
allowed-separators (c ∷ var) h = ground (arith, allowed-separators var)

convert-append :
    (var value rest : Bytes) (items : VarValueMap)
    → convert_var_value_map_to_blob ((var, value) ∷ items) ++ rest
      ≡ var
        ++ var_value_separator
          ∷ (value ++ item_separator ∷ (convert_var_value_map_to_blob items ++ rest))
unfolding convert_var_value_map_to_blob
convert-append var value rest items = simp append_assoc

module _ (base : Base) where
  -- What the checks say about separators.
  domain-separators :
      (domain : Bytes) → is_domain_sane base domain ≡ true → has_byte item_separator domain ≡ false
  unfolding is_domain_sane
  domain-separators domain h = ground arith

  var-separators :
      (var : Bytes)
      → is_var_sane base var ≡ true
      → (has_byte item_separator var ≡ false)
        × (has_byte var_value_separator var ≡ false)
        × (is_empty var ≡ false)
  unfolding is_var_sane
  var-separators var h = ground (arith, allowed-separators var)

  value-separators :
      (value : Bytes) → is_value_sane base value ≡ true → has_byte item_separator value ≡ false
  unfolding is_value_sane
  value-separators value h = ground arith

  -- The list of the items ends at an empty line.
  no_item :
      (var value rest rest' : Bytes) (items : VarValueMap)
      → is_var_sane base var ≡ true
      → item_separator ∷ rest ≢ convert_var_value_map_to_blob ((var, value) ∷ items) ++ rest'
  unfolding convert_var_value_map_to_blob
  no_item [] value rest rest' items h e = ground (arith, var-separators [])
  no_item (c ∷ var) value rest rest' items h e = ground (arith, var-separators (c ∷ var))

  items-injective :
      (items items' : VarValueMap) (rest rest' : Bytes)
      → are_items_sane base items ≡ true
      → are_items_sane base items' ≡ true
      → convert_var_value_map_to_blob items ++ item_separator ∷ rest
        ≡ convert_var_value_map_to_blob items' ++ item_separator ∷ rest'
      → (items ≡ items') × (rest ≡ rest')
  unfolding are_items_sane
  items-injective [] [] rest rest' h h' e = (refl, unfold convert_var_value_map_to_blob in cc)
  items-injective [] ((var, value) ∷ items') rest rest' h h' e = absurd (
      no_item var value rest (item_separator ∷ rest') items' (ground arith)
        (unfold convert_var_value_map_to_blob in e))
  items-injective ((var, value) ∷ items) [] rest rest' h h' e = absurd (
      no_item var value rest' (item_separator ∷ rest) items (ground arith)
        (unfold convert_var_value_map_to_blob in sym e))
  items-injective ((var, value) ∷ items) ((var', value') ∷ items') rest rest' h h' e =
      let (vars, after_var) =
        split_at var_value_separator var var' _ _ (ground (arith, var-separators var))
          (ground (arith, var-separators var'))
          (sym (convert-append var value _ items) ∙ e ∙ convert-append var' value' _ items') in
      let (values, after_value) =
        split_at item_separator value value' _ _ (ground (arith, value-separators value))
          (ground (arith, value-separators value')) after_var in
      let (same_items, same_rest) =
        items-injective items items' rest rest' (ground arith) (ground arith) after_value in
      (ground arith, same_rest)

  -- Two sets of sane arguments that give the same message are the same arguments, if
  -- base::Int64ToString tells any two ticks apart.
  pub passport_blob-injective :
      ((s t : ℕ) → base.int64_to_string s ≡ base.int64_to_string t → s ≡ t)
      → (domain domain' : Bytes) (items items' : VarValueMap) (tick tick' : ℕ)
      → is_domain_sane base domain ≡ true
      → is_domain_sane base domain' ≡ true
      → is_var_value_map_sane base items ≡ true
      → is_var_value_map_sane base items' ≡ true
      → passport_blob base domain items tick ≡ passport_blob base domain' items' tick'
      → (domain ≡ domain') × (items ≡ items') × (tick ≡ tick')
  unfolding passport_blob is_var_value_map_sane
  passport_blob-injective digits domain domain' items items' tick tick' d d' m m' e =
      let (domains, after_domain) =
        split_at item_separator domain domain' _ _ (domain-separators domain d)
          (domain-separators domain' d') e in
      let (same_items, ticks) =
        items-injective items items' _ _ (ground arith) (ground arith) after_domain in
      (domains, same_items, digits tick tick' ticks)
