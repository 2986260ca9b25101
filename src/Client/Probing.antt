-- ===== src/Client/Probing.antt =====
-- Which builds on a host match, src/client/remote.rs.
use Prim.Native.String.{String}
use text.Mathlib.TextEquality.{eq_iff}
use file_peeker.Base.{
  ◌≡◌, ◌↔◌, refl, ap, true, ◌&&◌, Option, none, some, ◌==◌, arith, inl, inr, Bool-cases,
}
use file_peeker.Client.{
  Probe, Wanted, release, dev, mismatch, is_same, is_hash, client_protocol_version,
}

is_hash-some : (o : Option String) (hash : String) → is_hash o hash ≡ true → o ≡ some hash
is_hash-some none hash h = absurd (ground arith)
is_hash-some (some found) hash h = ap some ((eq_iff found hash).0 h)

some-is_hash : (o : Option String) (hash : String) → o ≡ some hash → is_hash o hash ≡ true
some-is_hash none hash h = cc
some-is_hash (some found) hash h = (eq_iff found hash).1 (ground arith)

-- The build that a client wants: a release of its version, or a development build of its very source.
abbrev pub IsThisBuild : Wanted → Probe → Type 0
IsThisBuild (release version) probe = (probe.build ≡ "release") × (probe.version ≡ version)
IsThisBuild (dev source) probe = (probe.build ≡ "dev") × (probe.source_hash ≡ some source.hash)

is_same_iff :
    (wanted : Wanted) (probe : Probe) → (is_same wanted probe ≡ true) ↔ IsThisBuild wanted probe
unfolding is_same
is_same_iff (release version) probe = (
  λ h. (
    (eq_iff probe.build "release").0 (ground arith),
    (eq_iff probe.version version).0 (ground arith),
  ),
  λ (b, v). rw ((eq_iff probe.build "release").1 b, (eq_iff probe.version version).1 v) refl,
)
is_same_iff (dev source) probe = (
  λ h. (
    (eq_iff probe.build "dev").0 (ground arith),
    is_hash-some probe.source_hash source.hash (ground arith),
  ),
  λ (b, v). rw ((eq_iff probe.build "dev").1 b, some-is_hash probe.source_hash source.hash v) refl,
)

-- A probe shows no mismatch exactly when something is installed, it speaks protocol 3 and it is the build that the
-- client wants: for a release, a release of the same version; for a development build, a development build with
-- the same whole hash of its source.
pub mismatch-none :
    (wanted : Wanted) (probe : Probe)
    → (mismatch wanted probe ≡ none)
      ↔ ((probe.installed ≡ true) × (probe.client_protocol ≡ 3) × IsThisBuild wanted probe)
unfolding mismatch
mismatch-none wanted probe = (
  λ h. elim (Bool-cases probe.installed) [
    | inr u ↦ absurd (ground arith)
    | inl u ↦
        elim (Bool-cases
          (is_same wanted probe && probe.client_protocol == client_protocol_version)) [
            | inr w ↦ absurd (ground arith)
            | inl w ↦ (u, ground arith, (is_same_iff wanted probe).0 (ground arith))
          ]
  ],
  λ (i, c, b). let same = (is_same_iff wanted probe).1 b in ground arith,
)
