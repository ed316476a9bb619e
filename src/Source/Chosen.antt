-- ===== src/Source/Chosen.antt =====
-- custom_components/fritzbox_vpn/fritz_config_source.py: the entry that a configuration is taken from.
use mathlib.Core.Option.{some-injective}
use fritzbox_vpn.Base.{
  Bool, true, false, not, Option, none, some, List, [], ◌∷◌, String, ◌≡◌, refl, sym, ap, ◌⊎◌, inl,
  inr, Bool-cases, Option-cases, lookup, subst, arith, ◌∙◌, if◌then◌else◌, Among,
}
use fritzbox_vpn.Value.{Value, str, Payload, truthy, value_or, as_dict}
use fritzbox_vpn.Config.{get, fritz_integration_domains}
use fritzbox_vpn.Source.{
  FritzEntry, entry_has_credentials, host_username_password_from_entry, credentials, with_nested,
  host_of, username_of, password_of, is_excluded, is_router, select, router_entries, first_of,
  chosen_entry, entries_or_none, config_of, search_domains, get_existing_fritz_config,
}

true_or_false : {b : Bool} → b ≡ true → b ≡ false → ⊥
true_or_false t f = cc

-- A router's entry of the domain that may be read. If it has no credentials, no such entry has any.
pub record IsChosen (all_entries : List FritzEntry) (entry : FritzEntry) : Type 0 where
  pub among : Among entry all_entries
  pub router : is_router entry ≡ true
  pub readable : is_excluded entry.state ≡ false
  pub preferred :
      entry_has_credentials entry ≡ false
      → (other : FritzEntry) → Among other all_entries
      → is_router other ≡ true
      → is_excluded other.state ≡ false
      → entry_has_credentials other ≡ false

kept_head :
    (p : FritzEntry → Bool) (e x : FritzEntry) (xs ys : List FritzEntry)
    → p x ≡ true
    → (Among e ys → Among e xs × (p e ≡ true))
    → (e ≡ x) ⊎ Among e ys
    → Among e (x ∷ xs) × (p e ≡ true)
kept_head p e x xs ys t rest (inl q) = (inl q, ap p q ∙ t)
kept_head p e x xs ys t rest (inr m) = let (n, q) = rest m in (inr n, q)

Among-select :
    (p : FritzEntry → Bool) (e : FritzEntry) (xs : List FritzEntry)
    → Among e (select p xs)
    → Among e xs × (p e ≡ true)
unfolding select
Among-select p e [] h = absurd h
Among-select p e (x ∷ xs) h = elim (Bool-cases (p x)) [
  | inl t ↦ kept_head p e x xs (select p xs) t (Among-select p e xs) (rw t at h)
  | inr f ↦ let (m, q) = Among-select p e xs (rw f at h) in (inr m, q)
]

select-Among :
    (p : FritzEntry → Bool) (e : FritzEntry) (xs : List FritzEntry)
    → Among e xs
    → p e ≡ true
    → Among e (select p xs)
unfolding select
select-Among p e [] h t = h
select-Among p e (x ∷ xs) (inl q) t = rw (ap p (sym q) ∙ t) (inl q)
select-Among p e (x ∷ xs) (inr m) t = elim (Bool-cases (p x)) [
  | inl s ↦ rw s (inr (select-Among p e xs m t))
  | inr s ↦ rw s (select-Among p e xs m t)
]

none_among : (e : FritzEntry) (xs : List FritzEntry) → Among e xs → xs ≡ [] → ⊥
none_among e [] m h = m
none_among e (x ∷ xs) m h = cc

first_among :
    (xs ys : List FritzEntry) (e : FritzEntry)
    → first_of xs ys ≡ some e
    → Among e xs ⊎ (Among e ys × (xs ≡ []))
first_among (x ∷ xs) ys e h = inl (inl (sym (some-injective _ _ h)))
first_among [] (y ∷ ys) e h = inr (inl (sym (some-injective _ _ h)), refl)
first_among [] [] e h = cc

not-true : (b : Bool) → not b ≡ true → b ≡ false
not-true b h = ground arith

not-false : (b : Bool) → b ≡ false → not b ≡ true
not-false b h = ground arith

abbrev routers : List FritzEntry → List FritzEntry
routers all_entries = select is_router (select (λ e. not (is_excluded e.state)) all_entries)

Among-routers :
    (all_entries : List FritzEntry) (e : FritzEntry)
    → Among e (routers all_entries)
    → Among e all_entries × (is_router e ≡ true) × (is_excluded e.state ≡ false)
Among-routers all_entries e m =
    let (n, r) = Among-select is_router e (select (λ x. not (is_excluded x.state)) all_entries) m in
    let (a, s) = Among-select (λ x. not (is_excluded x.state)) e all_entries n in
    (a, r, not-true (is_excluded e.state) s)

routers-Among :
    (all_entries : List FritzEntry) (e : FritzEntry)
    → Among e all_entries
    → is_router e ≡ true
    → is_excluded e.state ≡ false
    → Among e (routers all_entries)
routers-Among all_entries e a r s =
    select-Among is_router e (select (λ x. not (is_excluded x.state)) all_entries)
      (select-Among (λ x. not (is_excluded x.state)) e all_entries a
        (not-false (is_excluded e.state) s))
      r

picked-IsChosen :
    (all_entries : List FritzEntry) (entry : FritzEntry)
    → chosen_entry all_entries ≡ some entry
    → IsChosen all_entries entry
unfolding chosen_entry router_entries
picked-IsChosen all_entries entry h =
    by_choice (
      first_among (select entry_has_credentials (routers all_entries)) (routers all_entries) entry
        h)
  where
    by_choice :
        Among entry (select entry_has_credentials (routers all_entries))
          ⊎ (Among entry (routers all_entries)
              × (select entry_has_credentials (routers all_entries) ≡ []))
        → IsChosen all_entries entry
    by_choice (inl m) =
        let (n, c) = Among-select entry_has_credentials entry (routers all_entries) m in
        let (a, r, s) = Among-routers all_entries entry n in
        record {
          among = a;
          router = r;
          readable = s;
          preferred = λ without other b t u. absurd (true_or_false c without);
        }
    by_choice (inr (n, nobody)) =
        let (a, r, s) = Among-routers all_entries entry n in
        record {
          among = a;
          router = r;
          readable = s;
          preferred = λ without other b t u. elim (Bool-cases (entry_has_credentials other)) [
            | inl c ↦ absurd (
                none_among other (select entry_has_credentials (routers all_entries))
                  (select-Among entry_has_credentials other (routers all_entries)
                    (routers-Among all_entries other b t u) c)
                  nobody)
            | inr c ↦ c
          ];
        }

-- The value below `host`, which is not empty.
abbrev pub HasHost : Payload → Type 0
HasHost config = (host : Value) × (lookup "host" config ≡ some host) × (truthy host ≡ true)

credentials-HasHost :
    (host username : Value) (password : String) (config : Payload)
    → credentials host username password ≡ some config
    → HasHost config
credentials-HasHost host username password config h = elim (Bool-cases (truthy host)) [
  | inl t ↦
      (host, subst (λ c. lookup "host" c ≡ some host) (some-injective _ _ (rw t at h)) first, t)
  | inr f ↦ cc (rw f at h)
]
  where
    first :
        lookup "host" (
          ("host", host)
          ∷ ("username", value_or username (str ""))
          ∷ ("password", str password)
          ∷ [])
        ≡ some host
    first = unfold lookup in refl

either_branch :
    (b : Bool) (x y : Option Payload) (config : Payload)
    → (if b then x else y) ≡ some config
    → (x ≡ some config) ⊎ (y ≡ some config)
either_branch true x y config h = inl h
either_branch false x y config h = inr h

nested-HasHost :
    (host username : Value) (password : String) (nested : Option Payload) (config : Payload)
    → with_nested host username password nested ≡ some config
    → HasHost config
nested-HasHost host username password none config h =
    credentials-HasHost host username password config h
nested-HasHost host username password (some nested) config h =
    elim (either_branch (truthy host) _ _ config h) [
      | inl k ↦ credentials-HasHost host username password config k
      | inr k ↦ credentials-HasHost _ _ _ config k
    ]

entry-HasHost :
    (entry : FritzEntry) (config : Payload)
    → host_username_password_from_entry entry ≡ some config
    → HasHost config
unfolding host_username_password_from_entry
entry-HasHost entry config h =
    nested-HasHost (host_of entry) (username_of entry) (password_of entry)
      (as_dict (get "data" entry.config)) config h

-- Where a configuration comes from.
pub record Origin (async_entries : String → Option (List FritzEntry)) (config : Payload)
    : Type 0 where
  pub domain : String
  pub all_entries : List FritzEntry
  pub entry : FritzEntry
  pub listed : async_entries domain ≡ some all_entries
  pub chosen : IsChosen all_entries entry
  pub read : host_username_password_from_entry entry ≡ some config
  pub host : HasHost config

module _ (async_entries : String → Option (List FritzEntry)) (config : Payload) where
  entry-Origin :
      (domain : String) (entry : Option FritzEntry)
      → entries_or_none (async_entries domain) ≡ entry
      → config_of entry ≡ some config
      → Origin async_entries config
  entry-Origin domain none e h = cc
  entry-Origin domain (some entry) e h = elim (Option-cases (async_entries domain)) [
    | inl n ↦ cc (rw n at e)
    | inr (all_entries, s) ↦ record {
      domain = domain;
      all_entries = all_entries;
      entry = entry;
      listed = s;
      chosen = picked-IsChosen all_entries entry (rw s at e);
      read = h;
      host = entry-HasHost entry config h;
    }
  ]

  search-Origin :
      (domains : List String)
      → search_domains async_entries domains ≡ some config
      → Origin async_entries config
  unfolding search_domains
  search-Origin [] h = cc
  search-Origin (domain ∷ domains) h =
      elim (Option-cases (config_of (entries_or_none (async_entries domain)))) [
        | inl n ↦ search-Origin domains (rw n at h)
        | inr (found, s) ↦
            entry-Origin domain (entries_or_none (async_entries domain)) refl (s ∙ (rw s at h))
      ]

  -- A configuration that is found has a host that is not empty. It is read from an entry of one of
  -- the integrations, which is no repeater's, is neither being set up nor stuck in unloading, and
  -- has credentials unless no such entry of its integration has any.
  pub get_existing_fritz_config-Origin :
      get_existing_fritz_config async_entries ≡ some config → Origin async_entries config
  unfolding get_existing_fritz_config
  get_existing_fritz_config-Origin h = search-Origin fritz_integration_domains h
