-- ===== src/Worker/Files/Setup.antt =====
-- The calls that the worker makes of the sandbox before the checks.
use mathlib.Core.Path.{subst}
use mathlib.Core.Option.{some-injective}
use code_delta.Worker.Sandbox.{
  Call, Sandbox, Platform, Run, ◌>>=◌, ◌>>◌, lift, made, mkdir, write_file, exec, destroy,
}
use code_delta.Prelude.{
  ℕ, zero, suc, ◌≡◌, refl, ap, ◌==◌, ==_iff, Bool-cases, Option-cases, ◌⊎◌, inl, inr, Bool, true,
  false, not, Option, none, some, List, [], ◌∷◌, ◌++◌, take, All, All-append, Result, throw_if,
  need, ok, err,
}
use code_delta.Text.{Text, txt, is_eq, LetterCase}
use code_delta.Worker.Fault.{Fault, file_digest_mismatch, platform_error}
use code_delta.Worker.Path.{normalize_path}
use code_delta.Worker.Path.Inside.{
  IsBelow, normalize_path_again, accepted-IsBelow, directory-IsBelow,
}
use code_delta.Worker.Request.{SandboxFile, ExecutionRequest}
use code_delta.Worker.Files.{
  last_index_of, repository, digest, make_directory, write_bytes, make_parent, write_one,
  write_files, prepare,
}

-- A call that only prepares the repository: it makes the repository's directory, or a directory
-- on the way to an accepted path, or writes the file of an accepted path; each path but the first
-- leads below the repository.
abbrev pub IsSetup : LetterCase → Call → Type 0
IsSetup letters (mkdir path) =
    (path ≡ txt "/workspace/repository")
    ⊎ (IsBelow path
        × (directory : Text) × (name : Text) × (path ≡ repository ++ directory)
        × (normalize_path letters (directory ++ (b'/' ∷ name)) ≡ ok (directory ++ (b'/' ∷ name))))
IsSetup letters (write_file path bytes) =
    IsBelow path × (q : Text) × (path ≡ repository ++ q) × (normalize_path letters q ≡ ok q)
IsSetup letters (exec line time) = ⊥
IsSetup letters destroy = ⊥

-- The last separator parts the text into what stands before it and behind it.
last_index_of-parts :
    (c : ℕ) (s : Text) (i : ℕ) → last_index_of c s ≡ some i → (n : Text) × (s ≡ take i s ++ (c ∷ n))
unfolding last_index_of
last_index_of-parts c [] i h = absurd cc
last_index_of-parts c (a ∷ s) i h = elim (Option-cases (last_index_of c s)) [
  | inr (j, e) ↦
      let (n, parts) = last_index_of-parts c s j e in
      let next : suc j ≡ i = some-injective (suc j) i (rw e at h) in
      (n, rw (← next) (ap (λ (t : Text). a ∷ t) parts))
  | inl e ↦ elim (Bool-cases (a == c)) [
    | inl same ↦
        let first : 0 ≡ i = some-injective 0 i (rw (e, same) at h) in
        (s, rw (← first) (ap (λ (x : ℕ). x ∷ s) ((==_iff a c).0 same)))
    | inr other ↦ absurd (let h' = rw (e, other) at h in cc)
  ]
]

module _ (platform : Platform) (sandbox : Sandbox) where
  abbrev Keeps : {A : Type 0} → Run A → Type 0
  Keeps m =
      (calls : List Call)
      → All (IsSetup platform.letters) calls
      → All (IsSetup platform.letters) (m calls).1

  Keeps-made :
      (call : Call) (able : List Call → Bool)
      → IsSetup platform.letters call
      → Keeps (λ calls. made call (able calls) calls)
  Keeps-made call able h calls all_calls = go (able calls)
    where
      go : (b : Bool) → All (IsSetup platform.letters) (made call b calls).1
      go true = All-append (IsSetup platform.letters) calls (call ∷ []) all_calls (h, tt)
      go false = All-append (IsSetup platform.letters) calls (call ∷ []) all_calls (h, tt)

  -- A step that is lifted from `Result` makes no call; what follows may use its value.
  Keeps-lift :
      {A B : Type 0} (r : Result Fault A) (f : A → Run B)
      → ((a : A) → r ≡ ok a → Keeps (f a))
      → Keeps (lift r >>= f)
  Keeps-lift (ok a) f h = h a refl
  Keeps-lift (err e) f h = λ calls all_calls. all_calls

  Keeps-then : {B : Type 0} (m : Run (Unit {0})) (k : Run B) → Keeps m → Keeps k → Keeps (m >> k)
  Keeps-then m k hm hk calls all_calls = go (m calls).0 (m calls).1 (hm calls all_calls)
    where
      go :
          (r : Result Fault (Unit {0})) (after : List Call)
          → All (IsSetup platform.letters) after
          → All (IsSetup platform.letters) (◌>>◌ (λ c. (r, after)) k calls).1
      go (ok u) after h = hk after h
      go (err e) after h = h

  make_parent-Keeps :
      (q : Text) (slash : Option ℕ)
      → last_index_of b'/' q ≡ slash
      → normalize_path platform.letters q ≡ ok q
      → Keeps (make_parent platform sandbox q slash)
  unfolding make_parent make_directory
  make_parent-Keeps q none e h = λ calls all_calls. all_calls
  make_parent-Keeps q (some zero) e h = λ calls all_calls. all_calls
  make_parent-Keeps q (some (suc i)) e h =
      let (name, parts) = last_index_of-parts b'/' q (suc i) e in
      let whole = subst (λ (p : Text). normalize_path platform.letters p ≡ ok p) parts h in
      Keeps-made (mkdir (repository ++ take (suc i) q))
        (λ calls. sandbox.can_mkdir calls (repository ++ take (suc i) q))
        (inr (
          directory-IsBelow platform.letters q (take (suc i) q) name h parts,
          take (suc i) q,
          name,
          refl,
          whole,
        ))

  write_one-Keeps : (file : SandboxFile) → Keeps (write_one platform sandbox file)
  unfolding write_one
  write_one-Keeps file = Keeps-lift (normalize_path platform.letters file.path) _ λ q accepted.
      Keeps-lift (need (platform.atob file.content_base64) platform_error) _ λ bytes _.
        Keeps-lift
          (throw_if (not (is_eq (digest platform sandbox bytes) file.sha256)) file_digest_mismatch)
          _
          λ _ _.
            let again = normalize_path_again platform.letters file.path q accepted in
            Keeps-then (make_parent platform sandbox q (last_index_of b'/' q))
              (write_bytes platform sandbox (repository ++ q) bytes)
              (make_parent-Keeps q (last_index_of b'/' q) refl again)
              (Keeps-made (write_file (repository ++ q) bytes)
                (λ calls. sandbox.can_write calls (repository ++ q) bytes)
                (accepted-IsBelow platform.letters q again, q, refl, again))

  write_files-Keeps : (files : List SandboxFile) → Keeps (write_files platform sandbox files)
  unfolding write_files
  write_files-Keeps [] = λ calls all_calls. all_calls
  write_files-Keeps (file ∷ files) =
      Keeps-then (write_one platform sandbox file) (write_files platform sandbox files)
        (write_one-Keeps file) (write_files-Keeps files)

  pub prepare-IsSetup :
      (payload : ExecutionRequest)
      → All (IsSetup platform.letters) (prepare platform sandbox payload []).1
  unfolding prepare make_directory
  prepare-IsSetup payload =
      Keeps-then (make_directory platform sandbox (txt "/workspace/repository")) _
        (Keeps-made (mkdir (txt "/workspace/repository"))
          (λ calls. sandbox.can_mkdir calls (txt "/workspace/repository")) (inl refl))
        (Keeps-then (write_files platform sandbox payload.files)
          (write_files platform sandbox payload.edits) (write_files-Keeps payload.files)
          (write_files-Keeps payload.edits))
        [] tt
