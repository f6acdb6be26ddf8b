-- ===== src/Driver/Statuses.antt =====
-- The statuses that the compiler exits with.
use gemstone.Prelude.{
  ℕ, ◌≡◌, refl, String, Bool, true, false, ◌&&◌, inl, inr, Bool-cases, Option, none, some, List, [],
  ◌∷◌, ◌++◌, if◌then◌else◌, Table, lookup,
}
use gemstone.Io.{ModuleFileStack}
use gemstone.Opt.Target.{TargetConfig}
use gemstone.Codegen.{
  BackendErrorKind, success, no_backend, backend_already_set, unimplemented, implementation,
  is_success, pass_on, set_backend, init_backend, generate_code, deinit_backend,
}
use gemstone.Driver.Imports.{Node, exit_success, exit_failure}
use gemstone.Driver.Builds.{
  Services, Result, setup_target_environment, run_backend_codegen, build_module, build_target,
  build_named,
}

is_success-pass_on : (code : BackendErrorKind) → is_success (pass_on code) ≡ is_success code
is_success-pass_on success = refl
is_success-pass_on no_backend = refl
is_success-pass_on backend_already_set = refl
is_success-pass_on unimplemented = refl
is_success-pass_on implementation = refl

-- Three calls, one after the other.
three :
    (a b c : BackendErrorKind)
    → (if is_success (pass_on a)
        then if is_success (pass_on b)
          then if is_success (pass_on c) then exit_success else exit_failure
          else exit_failure
        else exit_failure)
      ≡ (if is_success a && is_success b && is_success c then exit_success else exit_failure)
three a b c = rw (is_success-pass_on a) (
    rw (is_success-pass_on b)
      (rw (is_success-pass_on c) (nested (is_success a) (is_success b) (is_success c))))
  where
    nested :
        (a b c : Bool)
        → (if a
            then if b then if c then exit_success else exit_failure else exit_failure
            else exit_failure)
          ≡ (if a && b && c then exit_success else exit_failure)
    nested true true c = refl
    nested true false c = refl
    nested false b c = refl

module _ {Module : Type 0} (services : Services Module) where
  abbrev pub generates : TargetConfig → Option Module → Bool
  generates target none = false
  generates target (some analysed) =
      is_success services.llvm_backend_codegen_init
      && is_success (services.llvm_backend_codegen analysed target)
      && is_success services.llvm_backend_codegen_deinit

  -- Behind the parser a target is built just when both directories are there or can be made, the
  -- analysis gives a module, and the back end's functions for the start, the code and the end all answer
  -- with success.
  pub build_module-generates :
      (target : TargetConfig) (children : List Node)
      → build_module services target children ≡ (
          if services.create_directory target.archive_directory
            && services.create_directory target.output_directory
            && generates target (services.create_set children)
          then exit_success
          else exit_failure)
  unfolding build_module setup_target_environment run_backend_codegen set_backend init_backend
      generate_code deinit_backend
  build_module-generates target children =
      elim (Bool-cases (services.create_directory target.archive_directory)) [
        | inr e ↦ rw e refl
        | inl e ↦ rw e (elim (Bool-cases (services.create_directory target.output_directory)) [
          | inr f ↦ rw f refl
          | inl f ↦ rw f (go (services.create_set children))
        ])
      ]
    where
      go :
          (o : Option Module)
          → (elim o [
            | none ↦ exit_failure
            | some analysed ↦ run_backend_codegen services analysed target
          ])
            ≡ (if generates target o then exit_success else exit_failure)
      go none = refl
      go (some analysed) =
          three services.llvm_backend_codegen_init (services.llvm_backend_codegen analysed target)
            services.llvm_backend_codegen_deinit

  module _ (fuel : ℕ) (targets : Table TargetConfig) where
    -- A build of the target of a name after other builds: with what status they have ended is forgotten, if there is such a target.
    abbrev pub after : String → Result → Result
    after name none = none
    after name (some (err, files)) = elim (lookup targets name) [
      | none ↦ some (err, files)
      | some target ↦ build_target services fuel target files
    ]

    -- With one more name behind others, the status is that of the build of its target, whatever the
    -- earlier builds have ended with; a name that is no target leaves the status as it is.
    pub build_named-after :
        (names : List String) (name : String) (err : ℕ) (files : ModuleFileStack)
        → build_named services fuel targets (names ++ name ∷ []) err files
          ≡ after name (build_named services fuel targets names err files)
    unfolding build_named
    build_named-after [] name err files = ended (lookup targets name)
      where
        passed : (r : Result) → elim r [ none ↦ none | some (e, fs) ↦ some (e, fs) ] ≡ r
        passed none = refl
        passed (some (e, fs)) = refl

        ended :
            (o : Option TargetConfig)
            → elim o as (λ x. Result) [
              | none ↦ some (err, files)
              | some target ↦ elim (build_target services fuel target files) [
                | none ↦ none
                | some (e, fs) ↦ some (e, fs)
              ]
            ]
              ≡ elim o as (λ x. Result) [
                | none ↦ some (err, files)
                | some target ↦ build_target services fuel target files
              ]
        ended none = refl
        ended (some target) = passed (build_target services fuel target files)
    build_named-after (n ∷ names) name err files =
        go (lookup targets n) (build_named-after names name)
      where
        built :
            (r : Result)
            → ((err : ℕ) (files : ModuleFileStack)
                → build_named services fuel targets (names ++ name ∷ []) err files
                  ≡ after name (build_named services fuel targets names err files))
            → elim r as (λ x. Result) [
              | none ↦ none
              | some (e, fs) ↦ build_named services fuel targets (names ++ name ∷ []) e fs
            ]
              ≡ after name (elim r [
                | none ↦ none
                | some (e, fs) ↦ build_named services fuel targets names e fs
              ])
        built none rec = refl
        built (some (e, fs)) rec = rec e fs

        go :
            (o : Option TargetConfig)
            → ((err : ℕ) (files : ModuleFileStack)
                → build_named services fuel targets (names ++ name ∷ []) err files
                  ≡ after name (build_named services fuel targets names err files))
            → elim o as (λ x. Result) [
              | none ↦ build_named services fuel targets (names ++ name ∷ []) err files
              | some target ↦ elim (build_target services fuel target files) [
                | none ↦ none
                | some (e, fs) ↦ build_named services fuel targets (names ++ name ∷ []) e fs
              ]
            ]
              ≡ after name (elim o [
                | none ↦ build_named services fuel targets names err files
                | some target ↦ elim (build_target services fuel target files) [
                  | none ↦ none
                  | some (e, fs) ↦ build_named services fuel targets names e fs
                ]
              ])
        go none rec = rec err files
        go (some target) rec = built (build_target services fuel target files) rec
