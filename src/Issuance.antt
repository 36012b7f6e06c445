-- ===== src/Issuance.antt =====
-- The creation of certificates: `create`, `upload` and what they call of
-- lemur/certificates/service.py, `is_authorized_for_domain` of lemur/domains/service.py,
-- `is_valid_owner` of lemur/common/validators.py, and the two `post` handlers of
-- lemur/certificates/views.py that create a certificate.
pub mod Post
pub mod Domains
pub mod Orders
pub mod Owners
use lemur.Prelude.{
  ℕ, String, ◌+◌, Bool, true, false, not, ◌&&◌, ◌||◌, Option, none, some, List, [], ◌∷◌, ◌++◌, ◌==◌,
  Eq, nat_eq, string_eq, if◌then◌else◌, select, any, contains, map, arith, ◌≡◌, ◌↔◌, eq_iff,
}
use lemur.Prelude.Result.{Result, ok, err}
use lemur.Prelude.Text.{concat, join, is_empty}
use lemur.Prelude.Table.{modify}
use lemur.Auth.Permissions.{
  Config, RoleRef, Account, Principal, can, strict_role_permission, authority_permission,
}
use lemur.Certificates.{Destination, Plugins, validate_no_duplicate_destinations}
use lemur.Directory.{Role, Directory}
use lemur.Directory.Roles

pub record Authority : Type 0 where
  pub id : ℕ
  pub name : String
  pub owner : String
  pub plugin_name : String
  pub roles : List String

-- A name of the extension; only those of the class `DNSName` are checked.
pub data San : Type 0 where
  dns other : String → San

-- `notify` is none where the request does not say; `names` is empty where the request has no alternative names, and the two texts where it has no
-- common name and no request for signing.
pub record Order : Type 0 where
  pub owner : String
  pub authority : Authority
  pub common_name : String
  pub names : List San
  pub csr : String
  pub roles : List (Option String)
  pub destinations : List Destination
  pub replaces : List ℕ
  pub private_key : Bool
  pub notified : Option ℕ
  pub notify : Option Bool

-- A row of the certificates, or of the pending certificates. A role may be `None`.
pub record Row : Type 0 where
  pub id : ℕ
  pub owner : String
  pub creator : ℕ
  pub authority : Option ℕ
  pub csr : String
  pub body : String
  pub roles : List (Option String)
  pub replaces : List ℕ
  pub notify : Bool

-- What the issuer's plugin returns: it raises, signs at once, or takes an order without a body.
pub data Minted : Type 0 where
  failed ordered : Minted
  signed : String → Minted

-- What the provider of authorisation says of a domain and a caller, an exception other than
-- `UnauthorizedError` being `broken`.
pub data Verdict : Type 0 where
  granted denied broken : Verdict

-- `new_csr` is what `create_csr` makes, none where it raises, `application` the caller's application where it is known,
-- `email` the user's address, and a provider is none where it is not configured.
pub record Site : Type 0 where
  pub principal : Principal
  pub config : Config
  pub plugins : Plugins
  pub str : ℕ → String
  pub does_group_exist : Option (String → Bool)
  pub is_authorized : Option (String → String → Verdict)
  pub application : Option String
  pub email : String
  pub private_plugins : List String
  pub autoresolve_disabled : Bool
  pub new_csr : Option String
  pub create_certificate : String → Minted

-- `requests` counts the calls of an issuer, `queue` has the tasks `fetch_acme_cert`.
pub record Db : Type 0 where
  pub directory : Directory
  pub certificates : List Row
  pub pending : List Row
  pub next : ℕ
  pub next_pending : ℕ
  pub requests : ℕ
  pub queue : List (ℕ × Option ℕ)
  pub logs : List (String × ℕ)

pub data Trouble : Type 0 where
  duplicate_destinations minting_failed no_private_key : Trouble

-- What is created.
pub data Created : Type 0 where
  certificate pending_certificate : Row → Created

abbrev pub row_id : Row → ℕ
row_id r = r.id

abbrev pub name_beq : Option String → Option String → Bool
name_beq none none = true
name_beq (some a) (some b) = a == b
name_beq _ _ = false

pub name_beq_iff : (a b : Option String) → (name_beq a b ≡ true) ↔ (a ≡ b)
name_beq_iff none none = ground arith
name_beq_iff (some a) (some b) = ground (arith, eq_iff a b)
name_beq_iff _ _ = ground arith

instance abbrev pub name_eq : Eq (Option String)
name_eq = record { same = name_beq; same_iff = name_beq_iff }

unfoldable pub is_valid_owner : Site → String → Bool
is_valid_owner w email = elim w.does_group_exist [ none ↦ true | some exists' ↦ exists' email ]

unfoldable pub is_authorized_for_domain : Site → String → Verdict
is_authorized_for_domain w name = elim w.is_authorized [
  | none ↦ granted
  | some decide ↦ decide name (elim w.application [ none ↦ w.email | some a ↦ a ])
]

abbrev pub and_then : Verdict → Verdict → Verdict
and_then granted later = later
and_then denied later = denied
and_then broken later = broken

-- The loop over the names; the flag is whether the common name is still to be checked.
unfoldable pub allowed_names : Site → String → (check_cn : Bool) → List San → Verdict
allowed_names w cn check_cn [] = if check_cn then is_authorized_for_domain w cn else granted
allowed_names w cn check_cn (dns v ∷ names) =
    and_then (is_authorized_for_domain w v)
      (allowed_names w cn (if v == cn then false else check_cn) names)
allowed_names w cn check_cn (other v ∷ names) = allowed_names w cn check_cn names

unfoldable pub allowed_issuance_for_domain : Site → String → List San → Verdict
allowed_issuance_for_domain w cn names = allowed_names w cn (not (is_empty cn)) names

unfoldable pub create_certificate_roles :
    (owner : String) → Option Authority → Directory → List (Option String) × Directory
create_certificate_roles owner authority d =
    let description = concat "Auto generated role based on owner: " owner in
    let (owner_role, d') = Roles.get_or_create owner description d in
    elim authority [
      | none ↦ (some owner_role.name ∷ [], d')
      | some a ↦
          let authority_owner_role : Option String = elim (Roles.get_by_name a.owner d') [
            | none ↦ none
            | some r ↦ some r.name
          ] in
          (some owner_role.name ∷ authority_owner_role ∷ [], d')
    ]

-- `list(set(roles))`, in the order of the last occurrences.
unfoldable pub set_of : List (Option String) → List (Option String)
set_of [] = []
set_of (r ∷ roles) = let rest = set_of roles in if contains r roles then rest else r ∷ rest

-- The listener `update_replacement`.
unfoldable pub mute : List ℕ → List Row → List Row
mute [] rows = rows
mute (i ∷ replaced) rows = mute replaced (modify row_id i (λ r. record r { notify = false }) rows)

-- The request for signing, none where making one raises.
unfoldable pub csr_of : Site → Order → Option String
csr_of w o = if is_empty o.csr then w.new_csr else some o.csr

-- None where it raises before the issuer is called.
unfoldable pub mint : Site → Order → Option (Minted × String)
mint w o = elim (csr_of w o) [ none ↦ none | some csr ↦ some (w.create_certificate csr, csr) ]

abbrev pub new_row :
    ℕ → (creator : ℕ) → (csr body : String) → List (Option String) → Option ℕ → Order → Row
new_row i creator csr body roles authority o = record {
  id = i;
  owner = o.owner;
  creator = creator;
  authority = authority;
  csr = csr;
  body = body;
  roles = set_of roles;
  replaces = o.replaces;
  notify = elim o.notify [ none ↦ true | some b ↦ b ];
}

-- `create` from the answer of the issuer on.
unfoldable pub create_minted :
    Site → (creator : ℕ) → Order → Minted → (csr : String) → Db → Result Trouble Created × Db
create_minted w creator o failed csr db = (err minting_failed, db)
create_minted w creator o (signed body) csr db =
    let (roles, directory) = create_certificate_roles o.owner (some o.authority) db.directory in
    let row = new_row db.next creator csr body (o.roles ++ roles) (some o.authority.id) o in
    (
      ok (certificate row),
      record db {
        directory = directory;
        certificates = mute o.replaces db.certificates ++ row ∷ [];
        next = db.next + 1;
      },
    )
create_minted w creator o ordered csr db =
    let (roles, directory) = create_certificate_roles o.owner (some o.authority) db.directory in
    let row = new_row db.next_pending creator csr "" (o.roles ++ roles) (some o.authority.id) o in
    (
      ok (pending_certificate row),
      record db {
        directory = directory;
        pending = db.pending ++ row ∷ [];
        next_pending = db.next_pending + 1;
        queue =
            if w.autoresolve_disabled
            then db.queue
            else db.queue ++ (db.next_pending, o.notified) ∷ [];
      },
    )

-- An issuer is called where `mint` came to it.
unfoldable pub create_from :
    Site → (creator : ℕ) → Order → Option (Minted × String) → Db → Result Trouble Created × Db
create_from w creator o none db = (err minting_failed, db)
create_from w creator o (some (minted, csr)) db =
    create_minted w creator o minted csr (record db { requests = db.requests + 1 })

unfoldable pub create : Site → (creator : ℕ) → Order → Db → Result Trouble Created × Db
create w creator o db =
    if validate_no_duplicate_destinations w.plugins o.destinations
    then create_from w creator o (mint w o) db
    else (err duplicate_destinations, db)

-- The roles that are new are added to those asked for.
unfoldable pub upload :
    (creator : ℕ) → Order → (authority : Option Authority) → (body : String) → Db → Row × Db
upload creator o authority body db =
    let (roles, directory) = create_certificate_roles o.owner authority db.directory in
    let all_roles = o.roles ++ select (λ r. not (contains r o.roles)) roles in
    let row =
      new_row db.next creator o.csr body all_roles
        (elim authority [ none ↦ none | some a ↦ some a.id ]) o in
    (
      row,
      record db {
        directory = directory;
        certificates = mute o.replaces db.certificates ++ row ∷ [];
        next = db.next + 1;
      },
    )
