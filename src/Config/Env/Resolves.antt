-- ===== src/Config/Env/Resolves.antt =====
-- What `_resolve_env_refs` of config.py makes of a file.
use beacon_mcp.Base.{
  ◌≡◌, ◌≢◌, refl, sym, ap, ◌∙◌, ◌↔◌, ◌⊎◌, inl, inr, Option, none, some, [], ◌∷◌, Result, ok, err,
  arith, Ensures, holds, raised, Ensures-ok, Ensures-bind, Option-cases,
}
use beacon_mcp.Base.Dict.{Dict, lookup}
use beacon_mcp.Base.Text.{Text, text_has_eq}
use beacon_mcp.Config.Values.{
  Value, Items, Fields, null, bool, int, float, str, list, mapping, nil, cons, end, field,
  ConfigError,
}
use beacon_mcp.Config.Env.{
  env_ref, value_of, resolved, resolve_text, resolve, resolve_items, resolve_fields,
}
use beacon_mcp.Config.Env.Placeholder.{Names, env_ref_iff}

module _ (environ : Dict Text Text) where
  -- A text that is `${NAME}` stands for the value of a variable that is set and not empty, any other
  -- for itself.
  abbrev pub TextResolves : Text → Value → Type 0
  TextResolves s w =
      ((name : Text) × (t : Text) × Names name s
        × (lookup name environ ≡ some t)
        × (t ≢ [])
        × (w ≡ str t))
      ⊎ (((name : Text) → ¬ Names name s) × (w ≡ str s))

  -- The file with the values in the place of the placeholders, at any depth.
  abbrev mutual
    pub Resolves : Value → Value → Type 0
    Resolves (str s) w = TextResolves s w
    Resolves (list vs) w = (ws : Items) × ItemsResolve vs ws × (w ≡ list ws)
    Resolves (mapping fs) w = (gs : Fields) × FieldsResolve fs gs × (w ≡ mapping gs)
    Resolves null w = w ≡ null
    Resolves (bool b) w = w ≡ bool b
    Resolves (int n) w = w ≡ int n
    Resolves (float b s) w = w ≡ float b s

    pub ItemsResolve : Items → Items → Type 0
    ItemsResolve nil ws = ws ≡ nil
    ItemsResolve (cons v vs) ws =
        (w : Value) × (ws' : Items) × Resolves v w × ItemsResolve vs ws' × (ws ≡ cons w ws')

    pub FieldsResolve : Fields → Fields → Type 0
    FieldsResolve end gs = gs ≡ end
    FieldsResolve (field k v fs) gs =
        (w : Value) × (gs' : Fields) × Resolves v w × FieldsResolve fs gs' × (gs ≡ field k w gs')

  value_of-ok :
      (name : Text) (o : Option Text) (w : Value)
      → value_of environ name o ≡ ok w
      → (t : Text) × (o ≡ some t) × (t ≢ []) × (w ≡ str t)
  value_of-ok name none w h = absurd (ground (arith, h))
  value_of-ok name (some []) w h = absurd (ground (arith, h))
  value_of-ok name (some (c ∷ t)) w h =
      (c ∷ t, refl, λ e. absurd (ground (arith, e)), ground (arith, h))

  value_of-set : (name t : Text) → t ≢ [] → value_of environ name (some t) ≡ ok (str t)
  value_of-set name [] h = absurd (h refl)
  value_of-set name (c ∷ t) h = refl

  unmatched : (o : Option Text) (name : Text) → o ≡ none → o ≡ some name → ⊥
  unmatched o name missing found = ground (arith, missing, found)

  Ensures-intro :
      {P : Value → Type 0} (r : Result ConfigError Value)
      → ((w : Value) → r ≡ ok w → P w)
      → Ensures P r
  Ensures-intro (ok w) h = holds (h w refl)
  Ensures-intro (err e) h = raised

  resolve_text-resolves : (s : Text) (w : Value) → resolve_text environ s ≡ ok w → TextResolves s w
  unfolding resolve_text
  resolve_text-resolves s w h = elim (Option-cases (env_ref s)) [
    | inl plain ↦ inr (
      λ name named. unmatched (env_ref s) name plain ((env_ref_iff s name).1 named),
      ground (arith, h, plain),
    )
    | inr (name, found) ↦
        let (t, set, full, same) =
          value_of-ok name (lookup name environ) w (ap (resolved environ s) (sym found) ∙ h) in
        inl (name, t, (env_ref_iff s name).0 found, set, full, same)
  ]

  resolve_text-value : (s : Text) (w : Value) → TextResolves s w → resolve_text environ s ≡ ok w
  unfolding resolve_text
  resolve_text-value s w (inl (name, t, named, set, full, same)) =
      ap (resolved environ s) ((env_ref_iff s name).1 named)
      ∙ ap (value_of environ name) set
      ∙ value_of-set name t full
      ∙ ap ok (sym same)
  resolve_text-value s w (inr (plain, same)) = elim (Option-cases (env_ref s)) [
    | inl unnamed ↦ ap (resolved environ s) unnamed ∙ ap ok (sym same)
    | inr (name, found) ↦ absurd (plain name ((env_ref_iff s name).0 found))
  ]

  mutual
    unfolding resolve

    resolve-Resolves : (v : Value) → Ensures (Resolves v) (resolve environ v)
    resolve-Resolves (str s) = Ensures-intro (resolve_text environ s) (resolve_text-resolves s)
    resolve-Resolves (list vs) =
        Ensures-bind (resolve_items environ vs)
          λ ws e. holds (ws, Ensures-ok (resolve_items-Resolve vs) e, refl)
    resolve-Resolves (mapping fs) =
        Ensures-bind (resolve_fields environ fs)
          λ gs e. holds (gs, Ensures-ok (resolve_fields-Resolve fs) e, refl)
    resolve-Resolves null = holds refl
    resolve-Resolves (bool b) = holds refl
    resolve-Resolves (int n) = holds refl
    resolve-Resolves (float b s) = holds refl

    resolve_items-Resolve : (vs : Items) → Ensures (ItemsResolve vs) (resolve_items environ vs)
    resolve_items-Resolve nil = holds refl
    resolve_items-Resolve (cons v vs) = Ensures-bind (resolve environ v) λ w e.
        Ensures-bind (resolve_items environ vs) λ ws es.
          holds (
            w,
            ws,
            Ensures-ok (resolve-Resolves v) e,
            Ensures-ok (resolve_items-Resolve vs) es,
            refl,
          )

    resolve_fields-Resolve : (fs : Fields) → Ensures (FieldsResolve fs) (resolve_fields environ fs)
    resolve_fields-Resolve end = holds refl
    resolve_fields-Resolve (field k v fs) = Ensures-bind (resolve environ v) λ w e.
        Ensures-bind (resolve_fields environ fs) λ gs es. holds (
          w,
          gs,
          Ensures-ok (resolve-Resolves v) e,
          Ensures-ok (resolve_fields-Resolve fs) es,
          refl,
        )

  mutual
    unfolding resolve

    resolve-value : (v w : Value) → Resolves v w → resolve environ v ≡ ok w
    resolve-value (str s) w h = resolve_text-value s w h
    resolve-value (list vs) w (ws, all, same) =
        rw (resolve_items-values vs ws all) (ap ok (sym same))
    resolve-value (mapping fs) w (gs, all, same) =
        rw (resolve_fields-values fs gs all) (ap ok (sym same))
    resolve-value null w h = ap ok (sym h)
    resolve-value (bool b) w h = ap ok (sym h)
    resolve-value (int n) w h = ap ok (sym h)
    resolve-value (float b s) w h = ap ok (sym h)

    resolve_items-values : (vs ws : Items) → ItemsResolve vs ws → resolve_items environ vs ≡ ok ws
    resolve_items-values nil ws h = ap ok (sym h)
    resolve_items-values (cons v vs) ws (w, ws', first, rest, same) =
        rw (resolve-value v w first, resolve_items-values vs ws' rest) (ap ok (sym same))

    resolve_fields-values :
        (fs gs : Fields) → FieldsResolve fs gs → resolve_fields environ fs ≡ ok gs
    resolve_fields-values end gs h = ap ok (sym h)
    resolve_fields-values (field k v fs) gs (w, gs', first, rest, same) =
        rw (resolve-value v w first, resolve_fields-values fs gs' rest) (ap ok (sym same))

  -- A file resolves exactly to the same file, at any depth, with the value of the variable in the
  -- place of each text that is ${NAME}, perhaps with a newline after it, where every such variable
  -- is set and not empty.
  pub resolve_iff : (v w : Value) → (resolve environ v ≡ ok w) ↔ Resolves v w
  resolve_iff v w = (λ h. Ensures-ok (resolve-Resolves v) h, resolve-value v w)
