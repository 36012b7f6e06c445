-- ===== src/Destinations/Synced.antt =====
-- Destinations that are sources too.
use lemur.Prelude.{
  String, Bool, true, false, ◌&&◌, ◌≡◌, refl, sym, ap, Option, none, ◌==◌, subst, ◌⊎◌, ◌∙◌, some,
  List, [], ◌∷◌, ◌++◌, string_eq, any, arith, Option-cases, Bool-cases, inl, inr, beq_refl,
}
use lemur.Notifications.{
  Value, number, word, null, read, PluginOption, get_plugin_option, set_plugin_option,
}
use lemur.Notifications.Due.{has_option, get-set_plugin_option}
use lemur.Certificates.{account_eq}
use lemur.Destinations.{
  Destination, Source, Site, Db, create_source, is_source, source_options, add_source,
  add_aws_destination_to_sources,
}

-- Whether a plugin's options have a place for the account and the path.
abbrev pub has_places : List PluginOption → Bool
has_places options = has_option "accountNumber" options && has_option "path" options

-- What an option is read as is no null.
read-get :
    (name : String) (options : List PluginOption)
    → read (get_plugin_option name options) ≡ get_plugin_option name options
unfolding get_plugin_option
read-get name [] = refl
read-get name (o ∷ options) = elim (Bool-cases (o.name == name)) [
  | inr e ↦ rw e (read-get name options)
  | inl e ↦ elim (Option-cases o.value) [
    | inl n ↦ rw (e, n) (read-read o.default)
    | inr (v, n) ↦ rw (e, n) (read-read (some v))
  ]
]
  where
    read-read : (v : Option Value) → read (read v) ≡ read v
    read-read none = refl
    read-read (some null) = refl
    read-read (some (number i)) = refl
    read-read (some (word s)) = refl

settled :
    (name : String) (v : Value) (options : List PluginOption)
    → get_plugin_option name options ≡ some v
    → read (some v) ≡ some v
settled name v options h = ap read (sym h) ∙ (read-get name options ∙ h)

has_option-set :
    (name other : String) (v : Value) (options : List PluginOption)
    → has_option other (set_plugin_option name v options) ≡ has_option other options
unfolding has_option set_plugin_option any
has_option-set name other v [] = refl
has_option-set name other v (o ∷ options) = ground (arith, has_option-set name other v options)

account-source_options :
    (w : Site) (plugin : String) (account path : Value)
    → has_places (w.options plugin) ≡ true
    → read (some account) ≡ some account
    → read (some path) ≡ some path
    → (get_plugin_option "accountNumber" (source_options w plugin account path) ≡ some account)
      × (get_plugin_option "path" (source_options w plugin account path) ≡ some path)
unfolding source_options
account-source_options w plugin account path h ra rp =
    let a = set_plugin_option "accountNumber" account (w.options plugin) in
    let b = set_plugin_option "path" path a in
    ground (
      arith,
      get-set_plugin_option "endpointType" "accountNumber" (word "cloudfront") b,
      get-set_plugin_option "endpointType" "path" (word "cloudfront") b,
      get-set_plugin_option "path" "accountNumber" path a,
      get-set_plugin_option "path" "path" path a,
      get-set_plugin_option "accountNumber" "accountNumber" account (w.options plugin),
      has_option-set "accountNumber" "path" account (w.options plugin),
      ra,
      rp,
    )

is_source-append :
    (account path : Value) (s : Source) (sources : List Source)
    → get_plugin_option "accountNumber" s.options ≡ some account
    → get_plugin_option "path" s.options ≡ some path
    → is_source account path (sources ++ s ∷ []) ≡ true
unfolding is_source any
is_source-append account path s [] a p =
    ground (arith, a, p, beq_refl (some account), beq_refl (some path))
is_source-append account path s (t ∷ sources) a p =
    ground (arith, is_source-append account path s sources a p)

add_source_again :
    (w : Site) (d : Destination) (account path : Value) (db : Db)
    → has_places (w.options (w.sync_as_source_name d.plugin_name)) ≡ true
    → read (some account) ≡ some account
    → read (some path) ≡ some path
    → is_source account path (add_source w d account path db).1.sources ≡ true
unfolding add_source create_source
add_source_again w d account path db h ra rp =
    elim (Bool-cases (is_source account path db.sources)) [
      | inl e ↦ rw (e, add_source) e
      | inr e ↦
          rw (e, add_source)
            (is_source-append account path _ db.sources
              (account-source_options w (w.sync_as_source_name d.plugin_name) account path h ra
                rp).0
              (account-source_options w (w.sync_as_source_name d.plugin_name) account path h ra
                rp).1)
    ]

add_source_known :
    (w : Site) (d : Destination) (account path : Value) (db : Db)
    → is_source account path db.sources ≡ true
    → add_source w d account path db ≡ (false, db)
unfolding add_source
add_source_known w d account path db h = rw h refl

add_cases :
    (w : Site) (d : Destination)
    → ((db : Db) → add_aws_destination_to_sources w d db ≡ (false, db))
      ⊎ ((account : Value) × (path : Value) × (read (some account) ≡ some account)
          × (read (some path) ≡ some path)
          × ((db : Db) → add_aws_destination_to_sources w d db ≡ add_source w d account path db))
unfolding add_aws_destination_to_sources
add_cases w d = elim (Option-cases (get_plugin_option "accountNumber" d.options)) [
  | inl n ↦ inl (λ db. rw (n, add_aws_destination_to_sources) refl)
  | inr (account, a) ↦ elim (Option-cases (get_plugin_option "path" d.options)) [
    | inl n ↦ inl (λ db. rw (a, n, add_aws_destination_to_sources) refl)
    | inr (path, p) ↦ elim (Bool-cases (w.sync_as_source d.plugin_name)) [
      | inr off ↦ inl (λ db. rw (a, p, off, add_aws_destination_to_sources) refl)
      | inl on ↦ inr (
        account,
        path,
        settled _ account d.options a,
        settled _ path d.options p,
        λ db. rw (a, p, on, add_aws_destination_to_sources) refl,
      )
    ]
  ]
]

-- Where the options of the source's plugin have a place for the account and the path, a destination
-- that has been added to the sources is found there: adding it once more adds nothing and says so.
pub sources_added_once :
    (w : Site) (d : Destination) (db : Db)
    → has_places (w.options (w.sync_as_source_name d.plugin_name)) ≡ true
    → add_aws_destination_to_sources w d (add_aws_destination_to_sources w d db).1
      ≡ (false, (add_aws_destination_to_sources w d db).1)
sources_added_once w d db h = elim (add_cases w d) [
  | inl off ↦ off _
  | inr (account, path, ra, rp, on) ↦
      on _
      ∙ add_source_known w d account path (add_aws_destination_to_sources w d db).1 (
          subst (λ (x : Bool × Db). is_source account path x.1.sources ≡ true) (sym (on db))
            (add_source_again w d account path db h ra rp))
]
