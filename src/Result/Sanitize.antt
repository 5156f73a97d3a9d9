-- ===== src/Result/Sanitize.antt =====
-- `_sanitize_context` of infra/result.py. A value is a text, a dict, a list, or anything else. Only
-- dicts are searched: a list stays as it is, with the dicts in it.
use Prim.Native.String.{String}
use dro_asms.Prelude.{ℕ, ◌≡◌, sym, Bool, true, false, ◌||◌, List, [], ◌∷◌, arith, if◌then◌else◌}

mutual
  pub data Value : Type 0 where
    text : String → Value
    mapping : Entries → Value
    items : Values → Value
    other : ℕ → Value

  pub data Entries : Type 0 where
    empty : Entries
    entry : (key : String) → Value → Entries → Entries

  pub data Values : Type 0 where
    end : Values
    item : Value → Values → Values

abbrev pub sensitive_keys : List String
sensitive_keys =
    "password" ∷ "passwd" ∷ "secret" ∷ "token" ∷ "api_key" ∷ "apikey" ∷ "authorization" ∷ "auth"
    ∷ []

abbrev pub redacted : Value
redacted = text "***redacted***"

-- `lower` is `str.lower`, and `contains_text a b` is `a in b`.
module _ (lower : String → String) (contains_text : String → String → Bool) where
  abbrev any_in : List String → String → Bool
  any_in [] k = false
  any_in (s ∷ ss) k = contains_text s k || any_in ss k

  unfoldable pub is_sensitive : String → Bool
  is_sensitive k = any_in sensitive_keys (lower k)

  unfoldable mutual
    pub sanitize : Value → Value
    sanitize (text s) = text s
    sanitize (mapping es) = mapping (sanitize_context es)
    sanitize (items vs) = items vs
    sanitize (other n) = other n

    pub sanitize_context : Entries → Entries
    sanitize_context empty = empty
    sanitize_context (entry k v es) =
        let clean = sanitize v in
        let rest = sanitize_context es in entry k (if is_sensitive k then redacted else clean) rest

  -- The names that give away a secret.
  abbrev pub is_secret : String → Bool
  is_secret k =
      contains_text "password" (lower k)
      || contains_text "passwd" (lower k)
      || contains_text "secret" (lower k)
      || contains_text "token" (lower k)
      || contains_text "api_key" (lower k)
      || contains_text "apikey" (lower k)
      || contains_text "authorization" (lower k)
      || contains_text "auth" (lower k)

  -- What a value may become: a dict has the same keys in the same order, with the mask under the
  -- secret ones and what their values may become under the others; anything else stays as it is.
  mutual
    pub data Cleaned : Value → Value → Type 0 where
      dict : (es fs : Entries) → AllCleaned es fs → Cleaned (mapping es) (mapping fs)
      same_text : (s : String) → Cleaned (text s) (text s)
      same_items : (vs : Values) → Cleaned (items vs) (items vs)
      same_other : (n : ℕ) → Cleaned (other n) (other n)

    pub data AllCleaned : Entries → Entries → Type 0 where
      none_left : AllCleaned empty empty
      masked :
          (k : String) (v : Value) (es fs : Entries)
          → is_secret k ≡ true
          → AllCleaned es fs
          → AllCleaned (entry k v es) (entry k redacted fs)
      shown :
          (k : String) (v u : Value) (es fs : Entries)
          → is_secret k ≡ false
          → Cleaned v u
          → AllCleaned es fs
          → AllCleaned (entry k v es) (entry k u fs)

  is_sensitive_lem : (k : String) → is_sensitive k ≡ is_secret k
  unfolding is_sensitive
  is_sensitive_lem k = ground arith

  entry-AllCleaned :
      (k : String) (v u : Value) (es fs : Entries) (b : Bool)
      → is_secret k ≡ b
      → Cleaned v u
      → AllCleaned es fs
      → AllCleaned (entry k v es) (entry k (if b then redacted else u) fs)
  entry-AllCleaned k v u es fs true e c cs = masked k v es fs e cs
  entry-AllCleaned k v u es fs false e c cs = shown k v u es fs e c cs

  mutual
    unfolding sanitize

    value_cleaning : (v : Value) → Cleaned v (sanitize v)
    value_cleaning (text s) = same_text s
    value_cleaning (mapping es) = dict es (sanitize_context es) (fields_cleaning es)
    value_cleaning (items vs) = same_items vs
    value_cleaning (other n) = same_other n

    fields_cleaning : (es : Entries) → AllCleaned es (sanitize_context es)
    fields_cleaning empty = none_left
    fields_cleaning (entry k v es) =
        entry-AllCleaned k v (sanitize v) es (sanitize_context es) (is_sensitive k)
          (sym (is_sensitive_lem k)) (value_cleaning v) (fields_cleaning es)

  -- The sanitized context has the same keys in the same order, at every depth of dicts in dicts.
  -- The value of each key whose name, in lower case, contains one of the eight words is the mask,
  -- and every other value stays as it is, but for the dicts among them, of which the same holds.
  -- A list stays as it is, also where a dict in it has such a key.
  pub sanitize_context-AllCleaned : (es : Entries) → AllCleaned es (sanitize_context es)
  sanitize_context-AllCleaned es = fields_cleaning es
