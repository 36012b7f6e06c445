-- ===== src/Issuance/Owners.antt =====
-- The role of the owner of what is created.
use lemur.Prelude.{
  ℕ, String, ◌+◌, Bool, true, false, ◌≡◌, refl, ap, Option, none, some, List, [], ◌∷◌, ◌++◌, ◌==◌,
  string_eq, contains, contains-append, arith, eq_iff, Option-cases, Bool-cases, inl, inr,
}
use lemur.Prelude.Result.{Result, ok, err}
use lemur.Prelude.Text.{concat}
use lemur.Prelude.Table.{first, first-append, first_passes}
use lemur.Certificates.{validate_no_duplicate_destinations}
use lemur.Directory.{Role, Directory}
use lemur.Directory.Roles
use lemur.Issuance.{
  Authority, Order, Minted, failed, ordered, signed, Site, Db, Trouble, Created, certificate,
  pending_certificate, name_eq, name_beq_iff, create_certificate_roles, set_of, create_minted,
  create_from, create, mint,
}

contains-set_of :
    (r : Option String) (roles : List (Option String))
    → contains r (set_of roles) ≡ contains r roles
unfolding set_of contains
contains-set_of r [] = refl
contains-set_of r (s ∷ roles) =
    ground
      (arith, contains-set_of r roles, name_beq_iff s r, ap (λ x. contains x roles) {x = s} {y = r})

-- Whether there is a role of the name.
abbrev is_role : Option Role → Bool
is_role none = false
is_role (some r) = true

unfoldable pub has_role_named : String → Directory → Bool
has_role_named name d = is_role (Roles.get_by_name name d)

get_or_create_lem :
    (name description : String) (d : Directory)
    → ((Roles.get_or_create name description d).0.name ≡ name)
      × (has_role_named name (Roles.get_or_create name description d).1 ≡ true)
unfolding Roles.get_or_create Roles.create has_role_named first
get_or_create_lem name description d = elim (Option-cases (Roles.get_by_name name d)) [
  | inl e ↦
      rw (e, Roles.get_or_create)
        (
          refl,
          ground (
            arith,
            first-append (λ (r : Role). r.name == name) d.roles
                (record {
                  id = d.next_role;
                  name = name;
                  description = description;
                  third_party = false;
                }
                  ∷ []),
            e,
            eq_iff name name,
          ),
        )
  | inr (r, e) ↦
      rw (e, Roles.get_or_create)
        (
          (eq_iff r.name name).0 (first_passes (λ (x : Role). x.name == name) d.roles e),
          ap is_role e,
        )
]

roles-owner :
    (owner : String) (authority : Option Authority) (d : Directory)
    → (contains (some owner) (create_certificate_roles owner authority d).0 ≡ true)
      × (has_role_named owner (create_certificate_roles owner authority d).1 ≡ true)
unfolding create_certificate_roles contains
roles-owner owner none d = ground (
  arith,
  get_or_create_lem owner (concat "Auto generated role based on owner: " owner) d,
  eq_iff owner owner,
)
roles-owner owner (some a) d = ground (
  arith,
  get_or_create_lem owner (concat "Auto generated role based on owner: " owner) d,
  eq_iff owner owner,
)

-- What is created has the role of its owner, which is in the directory.
abbrev pub IsOwned : String → Result Trouble Created → Directory → Type 0
IsOwned owner (err e) d = Unit
IsOwned owner (ok (certificate row)) d =
    (contains (some owner) row.roles ≡ true) × (has_role_named owner d ≡ true)
IsOwned owner (ok (pending_certificate row)) d =
    (contains (some owner) row.roles ≡ true) × (has_role_named owner d ≡ true)

owner-set_of :
    (owner : String) (asked roles : List (Option String))
    → contains (some owner) roles ≡ true
    → contains (some owner) (set_of (asked ++ roles)) ≡ true
owner-set_of owner asked roles h =
    ground (
      arith,
      contains-set_of (some owner) (asked ++ roles),
      contains-append (some owner) asked roles,
    )

create_minted-IsOwned :
    (w : Site) (creator : ℕ) (o : Order) (m : Minted) (csr : String) (db : Db)
    → IsOwned o.owner
        (create_minted w creator o m csr db).0
        (create_minted w creator o m csr db).1.directory
unfolding create_minted
create_minted-IsOwned w creator o failed csr db = tt
create_minted-IsOwned w creator o (signed body) csr db =
    let (held, there) = roles-owner o.owner (some o.authority) db.directory in
    (owner-set_of o.owner o.roles _ held, there)
create_minted-IsOwned w creator o ordered csr db =
    let (held, there) = roles-owner o.owner (some o.authority) db.directory in
    (owner-set_of o.owner o.roles _ held, there)

create_from-IsOwned :
    (w : Site) (creator : ℕ) (o : Order) (m : Option (Minted × String)) (db : Db)
    → IsOwned o.owner (create_from w creator o m db).0 (create_from w creator o m db).1.directory
unfolding create_from
create_from-IsOwned w creator o none db = tt
create_from-IsOwned w creator o (some (minted, csr)) db =
    create_minted-IsOwned w creator o minted csr (record db { requests = db.requests + 1 })

-- Whatever roles are asked for, a certificate or pending certificate that is created has among its
-- roles the one named as its owner, and the directory has that role afterwards.
pub create-IsOwned :
    (w : Site) (creator : ℕ) (o : Order) (db : Db)
    → IsOwned o.owner (create w creator o db).0 (create w creator o db).1.directory
unfolding create
create-IsOwned w creator o db =
    elim (Bool-cases (validate_no_duplicate_destinations w.plugins o.destinations)) [
      | inl e ↦ rw e (create_from-IsOwned w creator o (mint w o) db)
      | inr e ↦ rw e tt
    ]
