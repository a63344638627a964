-- ===== src/Config/Values.antt =====
-- The values of a YAML file, and the helpers of config.py that read them. A key of a mapping is a text: no
-- other key is ever looked up.
use beacon_mcp.Base.{
  ℕ, Bool, true, false, not, ◌||◌, Option, none, some, List, [], ◌∷◌, Result, ok, err, ◌>>=◌, ◌>>◌,
  guard, if◌then◌else◌, ◌==◌, member, is_some, nat_eq,
}
use beacon_mcp.Base.Text.{Text, text_has_eq, codes, nonempty, strip, lower, starts_with}

-- A whole number: `pos n` is n, and `negsuc n` is -1-n.
pub data ℤ : Type 0 where
  pos : ℕ → ℤ
  negsuc : ℕ → ℤ

mutual
  pub data Value : Type 0 where
    null : Value
    bool : Bool → Value
    int : ℤ → Value
    float : Bool → Text → Value  -- a float or a date: its truth value, and how `str` prints it
    str : Text → Value
    list : Items → Value
    mapping : Fields → Value

  pub data Items : Type 0 where
    nil : Items
    cons : Value → Items → Items

  pub data Fields : Type 0 where
    end : Fields
    field : Text → Value → Fields → Fields

pub data ConfigError : Type 0 where
  missing_field : Text → ConfigError
  unset_variable : Text → ConfigError
  empty_variable : Text → ConfigError
  duplicate_device : Text → ConfigError
  duplicate_host : Text → ConfigError
  not_one_credential : ConfigError
  not_a_mapping : ConfigError
  not_a_list : ConfigError
  not_a_text : ConfigError
  legacy_shape : ConfigError
  no_defaults : ConfigError
  no_hosts : ConfigError
  bad_bundle : ConfigError
  bad_token_ttl : ConfigError
  bad_channel : ConfigError
  no_capability : ConfigError
  unknown_jump_host : ConfigError
  crashed : ConfigError  -- a TypeError, AttributeError or ValueError of a value of the wrong kind

-- What Python and the file system answer: `str` of a whole number, a list or a mapping, the conversions
-- `int` and `float`, which raise on some values, `os.path.expanduser`, and whether a file or directory
-- has this path.
pub record Python : Type 0 where
  pub print : Value → Text
  pub int_of : Value → Option ℤ
  pub float_of : Value → Option Value
  pub expanduser : Text → Text
  pub is_path : Text → Bool

-- `bool(v)`
unfoldable pub truthy : Value → Bool
truthy null = false
truthy (bool b) = b
truthy (int (pos n)) = not (nat_eq n 0)
truthy (int (negsuc n)) = true
truthy (float b s) = b
truthy (str s) = nonempty s
truthy (list nil) = false
truthy (list (cons v vs)) = true
truthy (mapping end) = false
truthy (mapping (field k v fs)) = true

-- `v or w`
abbrev pub or_else : Value → Value → Value
or_else w v = if truthy v then v else w

-- `v or None`, `none` being None
abbrev pub or_none : Value → Option Value
or_none v = if truthy v then some v else none

unfoldable pub get_field : Text → Fields → Option Value
get_field key end = none
get_field key (field k v fs) = if k == key then some v else get_field key fs

-- `infix in s` for texts
unfoldable pub is_infix : Text → Text → Bool
unfolding starts_with
is_infix p [] = starts_with p []
is_infix p (c ∷ s) = starts_with p (c ∷ s) || is_infix p s

-- `s in vs`
unfoldable pub has_text : Text → Items → Bool
has_text s nil = false
has_text s (cons (str t) vs) = s == t || has_text s vs
has_text s (cons v vs) = has_text s vs

-- `key in v`
unfoldable pub has_key : Text → Value → Result ConfigError Bool
unfolding get_field is_infix has_text
has_key key (mapping fs) = ok (is_some (get_field key fs))
has_key key (str s) = ok (is_infix key s)
has_key key (list vs) = ok (has_text key vs)
has_key key v = err crashed

abbrev pub or_default : Value → Option Value → Value
or_default w none = w
or_default w (some v) = v

-- `v.get(key, w)`
unfoldable pub get_or : Value → Text → Value → Result ConfigError Value
unfolding get_field
get_or w key (mapping fs) = ok (or_default w (get_field key fs))
get_or w key v = err crashed

-- `v.get(key)`
abbrev pub get : Text → Value → Result ConfigError Value
get = get_or null

unfoldable pub list_items : Items → List Value
list_items nil = []
list_items (cons v vs) = v ∷ list_items vs

unfoldable pub key_items : Fields → List Value
key_items end = []
key_items (field k v fs) = str k ∷ key_items fs

unfoldable pub char_items : Text → List Value
char_items [] = []
char_items (c ∷ s) = str (c ∷ []) ∷ char_items s

-- `list(v)`, and what `for x in v` goes through
unfoldable pub list_of : Value → Result ConfigError (List Value)
unfolding list_items key_items char_items
list_of (list vs) = ok (list_items vs)
list_of (mapping fs) = ok (key_items fs)
list_of (str s) = ok (char_items s)
list_of v = err crashed

abbrev pub is_mapping : Value → Bool
is_mapping (mapping fs) = true
is_mapping v = false

abbrev pub is_list : Value → Bool
is_list (list vs) = true
is_list v = false

-- `v in (None, "")`
abbrev pub is_unset : Value → Bool
is_unset null = true
is_unset (str []) = true
is_unset v = false

abbrev pub converted {ℓ} : {A : Type ℓ} → Option A → Result ConfigError A
converted none = err crashed
converted (some a) = ok a

abbrev true_strings : List Text
true_strings = codes "1" ∷ codes "true" ∷ codes "yes" ∷ codes "on" ∷ []

abbrev false_strings : List Text
false_strings = [] ∷ codes "0" ∷ codes "false" ∷ codes "no" ∷ codes "off" ∷ []

-- The verification of TLS: off, on, or with the CA bundle of a path.
pub data Verify : Type 0 where
  flag : Bool → Verify
  bundle : Text → Verify

module _ (python : Python) where
  open python use {print, expanduser, is_path}

  -- `str(v)`
  unfoldable pub to_str : Value → Text
  to_str null = codes "None"
  to_str (bool true) = codes "True"
  to_str (bool false) = codes "False"
  to_str (str s) = s
  to_str (float b s) = s
  to_str v = print v

  -- `obj[key]`, once `key in obj`
  unfoldable pub required_of : Text → Value → Result ConfigError Text
  unfolding get_field to_str
  required_of key (mapping fs) = elim (get_field key fs) [
    | none ↦ err (missing_field key)
    | some v ↦ if is_unset v then err (missing_field key) else ok (to_str v)
  ]
  required_of key v = err crashed

  -- `_required`
  unfoldable pub required : Text → Value → Result ConfigError Text
  unfolding has_key required_of
  required key obj = do
    there ← has_key key obj
    guard there (missing_field key)
    required_of key obj

  -- `_bool`
  unfoldable pub to_bool : Value → Bool
  unfolding to_str strip lower member
  to_bool (bool b) = b
  to_bool v = member (lower (strip (to_str v))) true_strings

  abbrev path_or_error : Text → Result ConfigError Verify
  path_or_error path = if is_path path then ok (bundle path) else err bad_bundle

  -- `_verify_ssl`
  unfoldable pub verify_ssl : Value → Result ConfigError Verify
  unfolding to_str strip lower member
  verify_ssl null = ok (flag false)
  verify_ssl (bool b) = ok (flag b)
  verify_ssl v =
      let raw = strip (to_str v) in
      if member (lower raw) true_strings
      then ok (flag true)
      else if member (lower raw) false_strings
      then ok (flag false)
      else path_or_error (expanduser raw)
