-- ===== src/Codegen.antt =====
-- The interface to a back end: src/codegen/backend.c. What a back end's functions answer is given, with
-- no message; the pointers to them are `none` before a back end is set.
use gemstone.Prelude.{Bool, true, false, Option, none, some, if◌then◌else◌}
use gemstone.Opt.Target.{TargetConfig}

-- `BackendErrorKind`.
pub data BackendErrorKind : Type 0 where
  success no_backend backend_already_set unimplemented implementation : BackendErrorKind

abbrev pub is_success : BackendErrorKind → Bool
is_success success = true
is_success no_backend = false
is_success backend_already_set = false
is_success unimplemented = false
is_success implementation = false

-- The variable `CodegenBackend`.
pub record CodegenBackend (Module : Type 0) : Type 0 where
  pub init_func : Option BackendErrorKind
  pub deinit_func : Option BackendErrorKind
  pub codegen_func : Option (Module → TargetConfig → BackendErrorKind)

-- An error of the back end's function is passed on.
abbrev pub pass_on : BackendErrorKind → BackendErrorKind
pass_on code = if is_success code then success else code

module _ {Module : Type 0} where
  unfoldable pub set_backend :
      BackendErrorKind
      → BackendErrorKind
      → (Module → TargetConfig → BackendErrorKind)
      → CodegenBackend Module
  set_backend init deinit codegen = record {
    init_func = some init;
    deinit_func = some deinit;
    codegen_func = some codegen;
  }

  unfoldable pub init_backend : CodegenBackend Module → BackendErrorKind
  init_backend backend = elim backend.init_func [ none ↦ no_backend | some code ↦ pass_on code ]

  unfoldable pub deinit_backend : CodegenBackend Module → BackendErrorKind
  deinit_backend backend = elim backend.deinit_func [ none ↦ no_backend | some code ↦ pass_on code ]

  unfoldable pub generate_code : CodegenBackend Module → Module → TargetConfig → BackendErrorKind
  generate_code backend root target = elim backend.codegen_func [
    | none ↦ no_backend
    | some codegen ↦ pass_on (codegen root target)
  ]
