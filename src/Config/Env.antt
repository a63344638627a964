-- ===== src/Config/Env.antt =====
-- `_resolve_env_refs` of config.py: `${VAR}` placeholders become the values of the environment.
pub mod Placeholder
pub mod Resolves
use beacon_mcp.Base.{
  ◌≡◌, refl, sym, ap, ◌∙◌, ◌↔◌, Bool, true, false, ◌||◌, ◌&&◌, Option, none, some, [], ◌∷◌, Result,
  ok, err, ◌>>=◌, if◌then◌else◌, nat_eq, leb, ℕ, arith, Ensures, holds, raised, Ensures-ok,
  Ensures-bind,
}
use beacon_mcp.Base.Dict.{Dict, lookup}
use beacon_mcp.Base.Text.{Text, text_has_eq, nonempty, is_digit}
use beacon_mcp.Config.Values.{
  Value, Items, Fields, null, bool, int, float, str, list, mapping, nil, cons, end, field,
  ConfigError, unset_variable, empty_variable,
}

abbrev is_capital : ℕ → Bool
is_capital c = (leb b'A' c && leb c b'Z') || nat_eq c b'_'

-- What `$` matches: the end, also before a last newline.
abbrev at_end : Text → Bool
at_end [] = true
at_end (c ∷ []) = nat_eq c 10
at_end s = false

abbrev prefixed : ℕ → Option Text → Option Text
prefixed c none = none
prefixed c (some name) = some (c ∷ name)

-- The rest of a name, up to the closing brace.
unfoldable pub name_rest : Text → Option Text
unfolding is_digit
name_rest [] = none
name_rest (c ∷ s) =
    let rest = name_rest s in
    if nat_eq c b'}'
    then (if at_end s then some [] else none)
    else if is_capital c || is_digit c
    then prefixed c rest
    else none

-- `_ENV_REF.match`, with the name that it finds
unfoldable pub env_ref : Text → Option Text
unfolding name_rest
env_ref (d ∷ o ∷ c ∷ s) =
    if nat_eq d b'$' && nat_eq o b'{' && is_capital c then prefixed c (name_rest s) else none
env_ref s = none

module _ (environ : Dict Text Text) where
  abbrev pub value_of : Text → Option Text → Result ConfigError Value
  value_of name none = err (unset_variable name)
  value_of name (some s) = if nonempty s then ok (str s) else err (empty_variable name)

  abbrev pub resolved : Text → Option Text → Result ConfigError Value
  resolved s none = ok (str s)
  resolved s (some name) = value_of name (lookup name environ)

  unfoldable pub resolve_text : Text → Result ConfigError Value
  unfolding env_ref lookup
  resolve_text s = resolved s (env_ref s)

  -- `_resolve_env_refs`
  unfoldable mutual
    unfolding resolve_text

    pub resolve : Value → Result ConfigError Value
    resolve (str s) = resolve_text s
    resolve (list vs) = do ws ← resolve_items vs; ok (list ws)
    resolve (mapping fs) = do gs ← resolve_fields fs; ok (mapping gs)
    resolve null = ok null
    resolve (bool b) = ok (bool b)
    resolve (int n) = ok (int n)
    resolve (float b s) = ok (float b s)

    pub resolve_items : Items → Result ConfigError Items
    resolve_items nil = ok nil
    resolve_items (cons v vs) = do w ← resolve v; ws ← resolve_items vs; ok (cons w ws)

    pub resolve_fields : Fields → Result ConfigError Fields
    resolve_fields end = ok end
    resolve_fields (field k v fs) = do w ← resolve v; gs ← resolve_fields fs; ok (field k w gs)
