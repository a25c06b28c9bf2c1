-- ===== src/Launch/Contract/Distinct.antt =====
-- src/launch/spec.rs, `LaunchSpec::validate`: the names that no two parts of a launch share.
use vivarium.Prelude.{
  ◌≡◌, refl, Bool, true, false, List, [], ◌∷◌, ◌++◌, Bytes, bytes_eq, map, any, ok, >>-eq-ok,
}
use vivarium.Protocol.Message.{CredentialId}
use vivarium.Net.Address.{Addresses}
use vivarium.Launch.Spec.{ShareSpec, CredentialSpec, VolumeSpec, LaunchSpec}
use vivarium.Launch.Paths.{path_eq}
use vivarium.Launch.Checks.Facts.{Passes, all_ok-All}
use vivarium.Launch.Contract.{
  HostDisk, refuse_if, unseen, met, id_eq, leg_sockets, sockets_fresh, credentials_ok,
}
use vivarium.Launch.Contract.Shares.{share_checks, shares_ok, volumes_ok}
use vivarium.Launch.Contract.Validate.{legs_met, credential_sockets, row_checks, validate}

pub refuse_if-false :
    (defect : Bool) (message : Bytes) → Passes (refuse_if defect message) → defect ≡ false
refuse_if-false true message h = cc
refuse_if-false false message h = refl

-- None of a list equals an earlier one, or one of those already seen.
abbrev pub IsFresh : {A : Type 0} → (A → A → Bool) → List A → List A → Type 0
IsFresh eq seen [] = Unit
IsFresh eq seen (x ∷ xs) = (any (eq x) seen ≡ false) × IsFresh eq (x ∷ seen) xs

abbrev pub IsDistinct : {A : Type 0} → (A → A → Bool) → List A → Type 0
IsDistinct eq xs = IsFresh eq [] xs

IsFresh-append :
    {A : Type 0} (eq : A → A → Bool) (seen xs ys : List A)
    → IsFresh eq seen xs
    → IsFresh eq (met seen xs) ys
    → IsFresh eq seen (xs ++ ys)
IsFresh-append eq seen [] ys h k = k
IsFresh-append eq seen (x ∷ xs) ys h k = (h.0, IsFresh-append eq (x ∷ seen) xs ys h.1 k)

unseen-IsFresh :
    {A : Type 0} (eq : A → A → Bool) (message : Bytes) (seen : List A) (x : A)
    → Passes (unseen eq message seen x)
    → any (eq x) seen ≡ false
unfolding unseen
unseen-IsFresh eq message seen x h = refuse_if-false (any (eq x) seen) message h

sockets-IsFresh :
    (seen paths : List Bytes) → Passes (sockets_fresh seen paths) → IsFresh path_eq seen paths
unfolding sockets_fresh
sockets-IsFresh seen [] h = tt
sockets-IsFresh seen (path ∷ paths) h =
    let (first, rest) = >>-eq-ok _ (sockets_fresh (path ∷ seen) paths) h in
    (unseen-IsFresh path_eq _ seen path first, sockets-IsFresh (path ∷ seen) paths rest)

credentials-IsFresh :
    (disk : HostDisk) (ids : List CredentialId) (sockets : List Bytes)
    (credentials : List CredentialSpec)
    → Passes (credentials_ok disk ids sockets credentials)
    → IsFresh id_eq ids (map (λ c. c.id) credentials)
      × IsFresh path_eq sockets (map (λ c. c.host_socket) credentials)
unfolding credentials_ok
credentials-IsFresh disk ids sockets [] h = (tt, tt)
credentials-IsFresh disk ids sockets (c ∷ more) h =
    let (row, after) =
      >>-eq-ok _ (credentials_ok disk (c.id ∷ ids) (c.host_socket ∷ sockets) more) h in
    let tests = all_ok-All _ row in
    let rest = credentials-IsFresh disk (c.id ∷ ids) (c.host_socket ∷ sockets) more after in
    (
      (unseen-IsFresh id_eq _ ids c.id tests.0, rest.0),
      (unseen-IsFresh path_eq _ sockets c.host_socket tests.1.1.1.0, rest.1),
    )

shares-IsFresh :
    (disk : HostDisk) (root : Bytes) (tags sockets : List Bytes) (shares : List ShareSpec)
    → Passes (shares_ok disk root tags sockets shares)
    → IsFresh bytes_eq tags (map (λ s. s.tag) shares)
      × IsFresh path_eq sockets (map (λ s. s.socket) shares)
unfolding shares_ok share_checks
shares-IsFresh disk root tags sockets [] h = (tt, tt)
shares-IsFresh disk root tags sockets (s ∷ more) h =
    let (row, after) =
      >>-eq-ok _ (shares_ok disk root (s.tag ∷ tags) (s.socket ∷ sockets) more) h in
    let tests = all_ok-All (share_checks disk root tags sockets s) row in
    let rest = shares-IsFresh disk root (s.tag ∷ tags) (s.socket ∷ sockets) more after in
    (
      (unseen-IsFresh bytes_eq _ tags s.tag tests.0, rest.0),
      (unseen-IsFresh path_eq _ sockets s.socket tests.1.1.1.1.1.1.0, rest.1),
    )

volumes-IsFresh :
    (labels images : List Bytes) (volumes : List VolumeSpec)
    → Passes (volumes_ok labels images volumes)
    → IsFresh bytes_eq labels (map (λ v. v.label) volumes)
      × IsFresh path_eq images (map (λ v. v.path) volumes)
unfolding volumes_ok
volumes-IsFresh labels images [] h = (tt, tt)
volumes-IsFresh labels images (v ∷ more) h =
    let (row, after) = >>-eq-ok _ (volumes_ok (v.label ∷ labels) (v.path ∷ images) more) h in
    let tests = all_ok-All _ row in
    let rest = volumes-IsFresh (v.label ∷ labels) (v.path ∷ images) more after in
    (
      (unseen-IsFresh bytes_eq _ labels v.label tests.1.1.0, rest.0),
      (unseen-IsFresh path_eq _ images v.path tests.1.1.1.0, rest.1),
    )

-- Every socket of a launch.
abbrev pub all_sockets : LaunchSpec → List Bytes
all_sockets spec = leg_sockets spec ++ (credential_sockets spec ++ map (λ s. s.socket) spec.shares)

-- What no two parts of a launch share.
pub record IsUnambiguous (spec : LaunchSpec) : Type 0 where
  pub sockets : IsDistinct path_eq (all_sockets spec)
  pub tags : IsDistinct bytes_eq (map (λ s. s.tag) spec.shares)
  pub credentials : IsDistinct id_eq (map (λ c. c.id) spec.socket_legs.credentials)
  pub labels : IsDistinct bytes_eq (map (λ v. v.label) spec.volumes)
  pub images : IsDistinct path_eq (map (λ v. v.path) spec.volumes)

-- In a validated contract no two sockets are one path (of the legs, the control socket, the
-- credentials and the shares together), no two shares have one tag, no two credentials one id, and
-- no two volumes one label or one image.
pub validate-IsUnambiguous :
    (lib : Addresses) (disk : HostDisk) (spec : LaunchSpec)
    → validate lib disk spec ≡ ok tt
    → IsUnambiguous spec
unfolding validate row_checks
validate-IsUnambiguous lib disk spec h =
    let parts = all_ok-All _ h in
    let rows = all_ok-All (row_checks lib disk spec) parts.1.1.1.1.0 in
    let credentials =
      credentials-IsFresh disk [] (legs_met spec) spec.socket_legs.credentials rows.1.0 in
    let shares =
      shares-IsFresh disk spec.runtime_paths.root [] (met (legs_met spec) (credential_sockets spec))
        spec.shares rows.1.1.0 in
    let volumes = volumes-IsFresh [] [] spec.volumes rows.1.1.1.1.0 in
    record {
      sockets =
          IsFresh-append path_eq [] (leg_sockets spec) _
            (sockets-IsFresh [] (leg_sockets spec) rows.0)
            (IsFresh-append path_eq (legs_met spec) (credential_sockets spec) _ credentials.1
              shares.1);
      tags = shares.0;
      credentials = credentials.0;
      labels = volumes.0;
      images = volumes.1;
    }
