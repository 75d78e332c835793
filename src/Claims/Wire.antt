-- ===== src/Claims/Wire.antt =====
-- The JSON form of a claim set in claims.go: MarshalJSON and UnmarshalJSON over the members of an object. The
-- text of a JSON value is the work of encoding/json.
pub mod Fields
pub mod Protects
mod Tests
use tsjwt.GoTime.{max_int64}
use tsjwt.Prelude.{
  ◌==◌, if◌then◌else◌, length, Text, codes, text_eq, text_lt, equal_fold, ℤ, Dict, insert, has,
  Bool, List, [], ◌∷◌, pos, negsuc, leb_ℤ, ◌&&◌,
}
use tsjwt.Errors.{other, Result, err, ok, ◌>>=◌}
use tsjwt.Claims.{Json, str, num, list, raw, Claims, no_claims}
use tsjwt.Prelude.Sort.{sort}

abbrev pub reserved : List Text
reserved =
    codes "iss"
    ∷ codes "sub"
    ∷ codes "aud"
    ∷ codes "iat"
    ∷ codes "nbf"
    ∷ codes "exp"
    ∷ codes "jti"
    ∷ codes "email"
    ∷ codes "name"
    ∷ codes "node"
    ∷ codes "tenant"
    ∷ codes "tenants"
    ∷ codes "roles"
    ∷ codes "groups"
    ∷ []

-- A member with omitempty.
pub text_member : Text → Text → Dict Json → Dict Json
text_member name [] rest = rest
text_member name (c ∷ t) rest = (name, str (c ∷ t)) ∷ rest

pub list_member : Text → List Text → Dict Json → Dict Json
list_member name [] rest = rest
list_member name (t ∷ ts) rest = (name, list (t ∷ ts)) ∷ rest

-- json.Marshal of the alias: the members of the struct, in its order.
unfoldable pub base_members : Claims → Dict Json
unfolding text_member list_member
base_members c =
    (codes "iss", str c.issuer)
    ∷ (codes "sub", str c.subject)
    ∷ (codes "aud", str c.audience)
    ∷ (codes "iat", num c.issued_at)
    ∷ (codes "nbf", num c.not_before)
    ∷ (codes "exp", num c.expiry)
    ∷ (codes "jti", str c.jti)
    ∷ text_member (codes "email") c.email (
        text_member (codes "name") c.display_name (
          text_member (codes "node") c.node (
            text_member (codes "tenant") c.tenant (
              list_member (codes "tenants") c.tenants
                (list_member (codes "roles") c.roles (list_member (codes "groups") c.groups []))))))

-- The loop of MarshalJSON over Extra.
merge_extra : Dict Json → Dict Json → Result (Dict Json)
unfolding has insert
merge_extra [] merged = ok merged
merge_extra ((k, v) ∷ extra) merged =
    let rest = merge_extra extra (insert k v merged) in if has k reserved then err other else rest

-- What reading a JSON value into an `any` and writing it again makes of it: a number goes through a float64,
-- `as_float`, which is the identity on the integers up to 2^53.
pub reread : (ℤ → ℤ) → Json → Json
reread as_float (str t) = str t
reread as_float (num n) = num (as_float n)
reread as_float (list l) = list l
reread as_float (raw r) = raw r

pub reread_members : (ℤ → ℤ) → Dict Json → Dict Json
unfolding reread
reread_members as_float [] = []
reread_members as_float ((k, v) ∷ o) = (k, reread as_float v) ∷ reread_members as_float o

abbrev pub by_name : Text × Json → Text × Json → Bool
by_name a b = text_lt a.0 b.0

-- MarshalJSON. A map is written in the order of its keys.
unfoldable pub marshal : (ℤ → ℤ) → Claims → Result (Dict Json)
unfolding base_members merge_extra reread_members
marshal as_float c =
    if length c.extra == 0
    then ok (base_members c)
    else (merge_extra c.extra (reread_members as_float (base_members c)) >>= λ merged.
        ok (sort by_name merged))

-- A field of a Go type that takes a JSON value: null leaves a string or a number as it was, and a number
-- fits an int64.
take_text : Json → Text → Result Text
unfolding text_eq
take_text (str t) was = ok t
take_text (raw r) was = if text_eq r (codes "null") then ok was else err other
take_text v was = err other

take_num : Json → ℤ → Result ℤ
unfolding text_eq
take_num (num n) was =
    if leb_ℤ (negsuc max_int64) n && leb_ℤ n (pos max_int64) then ok n else err other
take_num (raw r) was = if text_eq r (codes "null") then ok was else err other
take_num v was = err other

take_list : Json → Result (List Text)
unfolding text_eq
take_list (list l) = ok l
take_list (raw r) = if text_eq r (codes "null") then ok [] else err other
take_list v = err other

-- json.Unmarshal into the alias, for one member: encoding/json matches a member's name with a field's
-- without regard to case.
take_member : Text → Json → Claims → Result Claims
unfolding take_text take_num take_list equal_fold
take_member k v c =
    if equal_fold k (codes "iss")
    then (take_text v c.issuer >>= λ t. ok (record c { issuer = t }))
    else if equal_fold k (codes "sub")
    then (take_text v c.subject >>= λ t. ok (record c { subject = t }))
    else if equal_fold k (codes "aud")
    then (take_text v c.audience >>= λ t. ok (record c { audience = t }))
    else if equal_fold k (codes "iat")
    then (take_num v c.issued_at >>= λ n. ok (record c { issued_at = n }))
    else if equal_fold k (codes "nbf")
    then (take_num v c.not_before >>= λ n. ok (record c { not_before = n }))
    else if equal_fold k (codes "exp")
    then (take_num v c.expiry >>= λ n. ok (record c { expiry = n }))
    else if equal_fold k (codes "jti")
    then (take_text v c.jti >>= λ t. ok (record c { jti = t }))
    else if equal_fold k (codes "email")
    then (take_text v c.email >>= λ t. ok (record c { email = t }))
    else if equal_fold k (codes "name")
    then (take_text v c.display_name >>= λ t. ok (record c { display_name = t }))
    else if equal_fold k (codes "node")
    then (take_text v c.node >>= λ t. ok (record c { node = t }))
    else if equal_fold k (codes "tenant")
    then (take_text v c.tenant >>= λ t. ok (record c { tenant = t }))
    else if equal_fold k (codes "tenants")
    then (take_list v >>= λ l. ok (record c { tenants = l }))
    else if equal_fold k (codes "roles")
    then (take_list v >>= λ l. ok (record c { roles = l }))
    else if equal_fold k (codes "groups")
    then (take_list v >>= λ l. ok (record c { groups = l }))
    else ok c

take_members : Dict Json → Claims → Result Claims
unfolding take_member
take_members [] c = ok c
take_members ((k, v) ∷ o) c = take_member k v c >>= λ c'. take_members o c'

-- The loop of UnmarshalJSON over all members.
take_extra : (ℤ → ℤ) → Dict Json → Dict Json → Dict Json
unfolding has insert reread
take_extra as_float [] extra = extra
take_extra as_float ((k, v) ∷ o) extra =
    take_extra as_float o (if has k reserved then extra else insert k (reread as_float v) extra)

-- UnmarshalJSON, into an empty claim set.
unfoldable pub unmarshal : (ℤ → ℤ) → Dict Json → Result Claims
unfolding take_members take_extra
unmarshal as_float o =
    take_members o no_claims >>= λ c. ok (record c { extra = take_extra as_float o [] })
