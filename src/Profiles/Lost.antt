-- ===== src/Profiles/Lost.antt =====
-- Details whose names have capitals are gone once the details were tidied.
use mathlib.Core.List.{append-nil}
use chowkidar.Prelude.{
  ◌≡◌, refl, true, String, List, [], ◌∷◌, ◌++◌, none, Assoc, lookup, insert, lookup-insert, get_or,
  arith, Bool-cases, inl, inr, text_iff, ap, ◌∙◌,
}
use chowkidar.Text.{trim_space, is_empty, join}
use chowkidar.Text.Lower.{has_capital, to_lower-small}
use chowkidar.Profiles.Details.{
  normalize_notification_details, tidy_details, detail_key, detail_value,
}
use chowkidar.Profiles.Urls.{detail, param, ntfy_auth, ntfy_base, build_ntfy_url, join_query}

insert-missing :
    (k key value : String) (out : Assoc String)
    → has_capital key ≡ true
    → lookup key out ≡ none
    → lookup key (insert (detail_key k) value out) ≡ none
unfolding detail_key
insert-missing k key value out big h =
    lookup-insert (detail_key k) key value out
    ∙ ground (arith, to_lower-small (trim_space k), text_iff (detail_key k) key, ap has_capital, h)

tidy-missing :
    (key : String) (out details : Assoc String)
    → has_capital key ≡ true
    → lookup key out ≡ none
    → lookup key (tidy_details out details) ≡ none
unfolding tidy_details
tidy-missing key out [] big h = h
tidy-missing key out ((k, v) ∷ rest) big h = elim (Bool-cases (is_empty (detail_key k))) [
  | inl e ↦ rw e (tidy-missing key out rest big h)
  | inr e ↦ rw e (
      tidy-missing key (insert (detail_key k) (detail_value (detail_key k) v) out) rest big
        (insert-missing k key _ out big h))
]

pub lookup-normalize_details :
    (key : String) (details : Assoc String)
    → has_capital key ≡ true
    → lookup key (normalize_notification_details details) ≡ none
unfolding normalize_notification_details lookup
lookup-normalize_details key details big = tidy-missing key [] details big refl

no_detail :
    (key : String) (details : Assoc String) → lookup key details ≡ none → detail details key ≡ ""
no_detail key details h = ap (get_or "") h

param-blank :
    (escape : String → String) (name value : String) → value ≡ "" → param escape name value ≡ []
unfolding param trim_space
param-blank escape name value h = ap (param escape name) h

ntfy_auth-missing :
    (escape : String → String) (d : Assoc String)
    → lookup "authMethod" d ≡ none
    → ntfy_auth escape d ≡ []
unfolding ntfy_auth trim_space
ntfy_auth-missing escape d h = rw (no_detail "authMethod" d h) refl

-- Whatever the details say of authentication and of an icon, the ntfy address that is built from the tidied
-- details has no more than the priority.
pub ntfy_without_auth :
    (escape : String → String) (details : Assoc String)
    → build_ntfy_url escape (normalize_notification_details details)
      ≡ join (ntfy_base escape (normalize_notification_details details)) (
          join_query
            (param escape "priority" (detail (normalize_notification_details details) "priority")))
unfolding build_ntfy_url
ntfy_without_auth escape details =
    let m = normalize_notification_details details in
    let no_icon = lookup-normalize_details "iconUrl" details refl in
    let no_auth = lookup-normalize_details "authMethod" details refl in
    let icon = param-blank escape "icon" (detail m "iconUrl") (no_detail "iconUrl" m no_icon) in
    let auth = ntfy_auth-missing escape m no_auth in
    let query = λ (ps : List String). join (ntfy_base escape m) (join_query ps) in
    let priority = param escape "priority" (detail m "priority") in
    (λ i. query (priority ++ (icon i ++ auth i))) ∙ ap query (append-nil priority)
