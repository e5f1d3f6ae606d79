-- ===== src/GatewayModelIds/RoundTrip.antt =====
-- A model id that the gateway gives out is read back as what it was made from, and no other id is read.
use Prim.Native.Char.{Char, code}
use Prim.Native.String.{◌++◌}
use text.Mathlib.TextEquality.{Char-path}
use text.Mathlib.TextLemmas.{nil-append, cons-append}
use mathlib.Core.Path.{subst}
use test2_freeclaudecode.Prelude.{
  ◌≡◌, refl, sym, ap, ◌∙◌, String, Bool, true, false, Option, none, some, nat_beq, nat_beq_iff,
  ◌==◌, string_eq, if◌then◌else◌, Bool-cases, Option-cases, inl, inr, some_injective,
}
use test2_freeclaudecode.GatewayModelIds.{
  partition, after_char, parse_provider_type, parse_model_name, DecodedGatewayModelId,
  gateway_model_id, no_thinking_gateway_model_id, decode_ref, decode_parts, decode_gateway_model_id,
  slash_free, gateway_model_id_prefix, no_thinking_gateway_model_id_prefix,
}

abbrev slash : Char
slash = "/"

slash_append : (right : String) → "/" ++ right ≡ String.◌∷◌ slash right
slash_append right = cons-append slash "" right ∙ ap (String.◌∷◌ slash) (nil-append right)

partition-slash : (right : String) → partition ("/" ++ right) ≡ some ("", right)
unfolding partition
partition-slash right = ap partition (slash_append right)

partition-append :
    (left right : String)
    → slash_free left ≡ true
    → partition (left ++ ("/" ++ right)) ≡ some (left, right)
unfolding partition slash_free
partition-append String.[] right free =
    ap partition (nil-append ("/" ++ right)) ∙ partition-slash right
partition-append (String.◌∷◌ c left) right free = elim (Bool-cases (nat_beq (code c) 47)) [
  | inl here ↦ cc (rw here at free)
  | inr other ↦
      ap partition (cons-append c left ("/" ++ right))
      ∙ rw (other, partition-append left right (rw other at free)) refl
]

-- What `partition` says of a text that it splits.
abbrev Splits : String → String → String → Type 0
Splits text left right = (text ≡ left ++ ("/" ++ right)) × (slash_free left ≡ true)

after_char-some :
    (c : Char) (o : Option (String × String)) (left right : String)
    → after_char c o ≡ some (left, right)
    → (l : String) × (o ≡ some (l, right)) × (String.◌∷◌ c l ≡ left)
after_char-some c none left right h = cc
after_char-some c (some (l, r)) left right h =
    let e = some_injective h in (l, ap (λ x. some (l, x.1)) e, ap (λ x. x.0) e)

partition-Splits :
    (text left right : String) → partition text ≡ some (left, right) → Splits text left right
unfolding partition slash_free
partition-Splits String.[] left right h = cc
partition-Splits (String.◌∷◌ c text) left right h = elim (Bool-cases (nat_beq (code c) 47)) [
  | inl here ↦
      let e = some_injective (rw here at h) in
      let char = Char-path c slash ((nat_beq_iff (code c) 47).0 here) in
      subst (λ p. Splits (String.◌∷◌ c text) p.0 p.1) e
        (
          ap (λ d. String.◌∷◌ d text) char ∙ sym (nil-append ("/" ++ text) ∙ slash_append text),
          refl,
        )
  | inr other ↦
      let (l, rest, first) = after_char-some c (partition text) left right (rw other at h) in
      let (whole, free) = partition-Splits text l right rest in
      subst (λ p. Splits (String.◌∷◌ c text) p right) first
        (ap (String.◌∷◌ c) whole ∙ sym (cons-append c l ("/" ++ right)), rw (other, free) refl)
]

module _ (provider model : String) (free : slash_free provider ≡ true)
    (named : (model == "") ≡ false) where
  decode_ref-append :
      (off : Bool)
      → decode_ref off (partition (provider ++ ("/" ++ model)))
        ≡ some
            (record { provider_id = provider; provider_model = model; force_reasoning_off = off })
  unfolding decode_ref
  decode_ref-append off = rw (partition-append provider model free, named) refl

  -- A provider's name without a slash and a model's name that is not empty are read back from both ids
  -- that are made of them, and the second id turns the reasoning off.
  pub decode-encode :
      let ref = provider ++ ("/" ++ model) in
      (decode_gateway_model_id (gateway_model_id ref)
        ≡ some (record {
          provider_id = provider;
          provider_model = model;
          force_reasoning_off = false;
        }))
      × (decode_gateway_model_id (no_thinking_gateway_model_id ref)
          ≡ some (record {
            provider_id = provider;
            provider_model = model;
            force_reasoning_off = true;
          }))
      × (parse_provider_type ref ≡ provider)
      × (parse_model_name ref ≡ some model)
  unfolding decode_gateway_model_id gateway_model_id no_thinking_gateway_model_id decode_parts
      parse_provider_type parse_model_name
  decode-encode =
      let ref = provider ++ ("/" ++ model) in
      (
        rw (partition-append gateway_model_id_prefix ref (unfold slash_free in refl))
            (decode_ref-append false),
        rw (partition-append no_thinking_gateway_model_id_prefix ref (unfold slash_free in refl))
            (decode_ref-append true),
        rw (partition-append provider model free, parse_provider_type) refl,
        rw (partition-append provider model free, parse_model_name) refl,
      )

-- What a decoded id says of the parts that it was read from.
decode_ref-some :
    (off : Bool) (o : Option (String × String)) (d : DecodedGatewayModelId)
    → decode_ref off o ≡ some d
    → (o ≡ some (d.provider_id, d.provider_model))
      × (d.force_reasoning_off ≡ off)
      × ((d.provider_model == "") ≡ false)
unfolding decode_ref
decode_ref-some off none d h = cc
decode_ref-some off (some (provider, model)) d h = elim (Bool-cases (model == "")) [
  | inl empty ↦ cc (rw empty at h)
  | inr named ↦
      let e = some_injective (rw named at h) in
      (
        ap (λ x. some (x.provider_id, x.provider_model)) e,
        sym (ap (λ x. x.force_reasoning_off) e),
        subst (λ x. (x.provider_model == "") ≡ false) e named,
      )
]

abbrev prefix_of : Bool → String
prefix_of off = if off then no_thinking_gateway_model_id_prefix else gateway_model_id_prefix

abbrev id_of : String → Bool → String
id_of ref off = if off then no_thinking_gateway_model_id ref else gateway_model_id ref

prefix_of-id : (off : Bool) (ref : String) → prefix_of off ++ ("/" ++ ref) ≡ id_of ref off
unfolding gateway_model_id no_thinking_gateway_model_id
prefix_of-id true ref = refl
prefix_of-id false ref = refl

decode_parts-some :
    (prefix remainder : String) (d : DecodedGatewayModelId)
    → decode_parts (some (prefix, remainder)) ≡ some d
    → (off : Bool) × (prefix ≡ prefix_of off) × (decode_ref off (partition remainder) ≡ some d)
unfolding decode_parts
decode_parts-some prefix remainder d h = elim (Bool-cases (prefix == gateway_model_id_prefix)) [
  | inl normal ↦
      (false, (string_eq.same_iff prefix gateway_model_id_prefix).0 normal, rw normal at h)
  | inr other ↦ elim (Bool-cases (prefix == no_thinking_gateway_model_id_prefix)) [
    | inl quiet ↦ (
      true,
      (string_eq.same_iff prefix no_thinking_gateway_model_id_prefix).0 quiet,
      rw (other, quiet) at h,
    )
    | inr foreign ↦ cc (rw (other, foreign) at h)
  ]
]

-- An id that is decoded is one that the gateway makes from what was decoded: the provider's name has
-- no slash, the model's name is not empty, and the id is the second one exactly when it turns the
-- reasoning off.
pub encode-decode :
    (model_name : String) (d : DecodedGatewayModelId)
    → decode_gateway_model_id model_name ≡ some d
    → let ref = d.provider_id ++ ("/" ++ d.provider_model) in
      (slash_free d.provider_id ≡ true)
      × ((d.provider_model == "") ≡ false)
      × (model_name ≡ (
          if d.force_reasoning_off then no_thinking_gateway_model_id ref else gateway_model_id ref))
unfolding decode_gateway_model_id
encode-decode model_name d h = elim (Option-cases (partition model_name)) [
  | inl foreign ↦ cc (rw (foreign, decode_parts) at h)
  | inr ((prefix, remainder), cut) ↦
      let (off, known, decoded) = decode_parts-some prefix remainder d (rw cut at h) in
      let (parts, force, named) = decode_ref-some off (partition remainder) d decoded in
      let (whole, _) = partition-Splits model_name prefix remainder cut in
      let (rest, free) = partition-Splits remainder d.provider_id d.provider_model parts in
      (
        free,
        named,
        whole
            ∙ ap (λ p. p ++ ("/" ++ remainder)) known
            ∙ ap (λ r. prefix_of off ++ ("/" ++ r)) rest
            ∙ prefix_of-id off (d.provider_id ++ ("/" ++ d.provider_model))
            ∙ ap (id_of (d.provider_id ++ ("/" ++ d.provider_model))) (sym force),
      )
]
