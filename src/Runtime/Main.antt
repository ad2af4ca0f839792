-- ===== src/Runtime/Main.antt =====
-- pkg/controller/src/main.rs: from the command line to the modules that are started. What the
-- libraries, the file system and the command line give is an input; a panic is a `panicked`.
use Prim.Native.String.{String}
use wasm_operator.Base.{
  Bool, true, false, Option, none, some, List, [], ◌∷◌, ◌≡◌, ◌↔◌, refl, inl, inr, ap, ◌∙◌,
}
use wasm_operator.Base.Outcome.{
  Outcome, ok, panicked, ◌>>=◌, bind-ok, ok_injective, IsDecided, bind-IsDecided,
}
use wasm_operator.Runtime.Metadata.{ControllerModuleMetadata, Parsed, load_modules_from_dir}

-- What the process finds when it starts: `cluster_url` and `service` are those of the `kube` crate,
-- and `files` are the contents of the files that can be read.
pub record Surroundings (Uri Service : Type 0) : Type 0 where
  pub tokio_runtime : Bool
  pub cluster_url : Option Uri
  pub service : Option Service
  pub args : List String
  pub cache_dir : Bool
  pub swap_dir : Bool
  pub files : String → Option String

-- What the runtime is started with, and the commands that are sent to it.
pub record Launch (Uri Service : Type 0) : Type 0 where
  pub cluster_url : Uri
  pub service : Service
  pub modules : List ControllerModuleMetadata

-- `expect` and `unwrap`.
unfoldable pub expect : {A : Type 0} → Option A → Outcome A
expect none = panicked
expect (some a) = ok a

unfoldable pub check : Bool → Outcome (Unit {0})
check true = ok tt
check false = panicked

-- `args.remove(1)`, behind the test of the length.
unfoldable pub modules_dir : List String → Outcome String
modules_dir [] = panicked
modules_dir (program ∷ []) = panicked
modules_dir (program ∷ path ∷ rest) = ok path

module _ {Uri Service : Type 0} (from_str : String → Parsed) (split : String → List String) where
  unfoldable pub main : Surroundings Uri Service → Outcome (Launch Uri Service)
  unfolding expect check modules_dir
  main s = do
    _ ← check s.tokio_runtime
    cluster_url ← expect s.cluster_url
    service ← expect s.service
    path ← modules_dir s.args
    _ ← check s.cache_dir
    _ ← check s.swap_dir
    mods ← expect (load_modules_from_dir from_str split (s.files path))
    ok (record { cluster_url = cluster_url; service = service; modules = mods })

  -- What must hold for the process to start modules.
  pub record IsLaunched (s : Surroundings Uri Service) (launch : Launch Uri Service) : Type 0 where
    pub tokio_runtime : s.tokio_runtime ≡ true
    pub cluster_url : s.cluster_url ≡ some launch.cluster_url
    pub service : s.service ≡ some launch.service
    pub program : String
    pub path : String
    pub rest : List String
    pub args : s.args ≡ program ∷ path ∷ rest
    pub cache_dir : s.cache_dir ≡ true
    pub swap_dir : s.swap_dir ≡ true
    pub modules : load_modules_from_dir from_str split (s.files path) ≡ some launch.modules

expect-ok : {A : Type 0} (x : Option A) {a : A} → expect x ≡ ok a → x ≡ some a
unfolding expect
expect-ok none e = cc
expect-ok (some b) e = cc

check-ok : (b : Bool) {u : Unit {0}} → check b ≡ ok u → b ≡ true
unfolding check
check-ok true e = refl
check-ok false e = cc

modules_dir-ok :
    (args : List String) {path : String}
    → modules_dir args ≡ ok path
    → (program : String) × (rest : List String) × (args ≡ program ∷ path ∷ rest)
unfolding modules_dir
modules_dir-ok [] e = cc
modules_dir-ok (program ∷ []) e = cc
modules_dir-ok (program ∷ path ∷ rest) e =
    (program, rest, ap (λ p. program ∷ p ∷ rest) (ok_injective e))

expect-IsDecided : {A : Type 0} (x : Option A) → IsDecided (expect x)
unfolding expect
expect-IsDecided none = inl refl
expect-IsDecided (some a) = inr (a, refl)

check-IsDecided : (b : Bool) → IsDecided (check b)
unfolding check
check-IsDecided true = inr (tt, refl)
check-IsDecided false = inl refl

modules_dir-IsDecided : (args : List String) → IsDecided (modules_dir args)
unfolding modules_dir
modules_dir-IsDecided [] = inl refl
modules_dir-IsDecided (program ∷ []) = inl refl
modules_dir-IsDecided (program ∷ path ∷ rest) = inr (path, refl)

module _ {Uri Service : Type 0} (from_str : String → Parsed) (split : String → List String) where
  main-ok :
      (s : Surroundings Uri Service) (launch : Launch Uri Service)
      → main from_str split s ≡ ok launch
      → IsLaunched from_str split s launch
  unfolding main
  main-ok s launch e =
      let (u1, tokio, e1) = bind-ok (check s.tokio_runtime) _ e in
      let (url, cluster, e2) = bind-ok (expect s.cluster_url) _ e1 in
      let (serv, client, e3) = bind-ok (expect s.service) _ e2 in
      let (path, args, e4) = bind-ok (modules_dir s.args) _ e3 in
      let (u2, cache, e5) = bind-ok (check s.cache_dir) _ e4 in
      let (u3, swap, e6) = bind-ok (check s.swap_dir) _ e5 in
      let (mods, loaded, e7) =
        bind-ok (expect (load_modules_from_dir from_str split (s.files path))) _ e6 in
      let same = ok_injective e7 in
      record {
        tokio_runtime = check-ok s.tokio_runtime tokio;
        cluster_url =
            expect-ok s.cluster_url cluster
            ∙ ap (λ (l : Launch Uri Service). some l.cluster_url) same;
        service = expect-ok s.service client ∙ ap (λ (l : Launch Uri Service). some l.service) same;
        program = (modules_dir-ok s.args args).0;
        path = path;
        rest = (modules_dir-ok s.args args).1;
        args = (modules_dir-ok s.args args).2;
        cache_dir = check-ok s.cache_dir cache;
        swap_dir = check-ok s.swap_dir swap;
        modules =
            expect-ok (load_modules_from_dir from_str split (s.files path)) loaded
            ∙ ap (λ (l : Launch Uri Service). some l.modules) same;
      }

  ok-main :
      (s : Surroundings Uri Service) (launch : Launch Uri Service)
      → IsLaunched from_str split s launch
      → main from_str split s ≡ ok launch
  unfolding main expect check modules_dir
  ok-main s launch h =
      rw (h.tokio_runtime, h.cluster_url, h.service, h.args, h.cache_dir, h.swap_dir, h.modules)
        refl

  main-IsDecided : (s : Surroundings Uri Service) → IsDecided (main from_str split s)
  unfolding main
  main-IsDecided s = bind-IsDecided (check s.tokio_runtime) _ (check-IsDecided s.tokio_runtime) λ u.
      bind-IsDecided (expect s.cluster_url) _ (expect-IsDecided s.cluster_url) λ url.
        bind-IsDecided (expect s.service) _ (expect-IsDecided s.service) λ service.
          bind-IsDecided (modules_dir s.args) _ (modules_dir-IsDecided s.args) λ path.
            bind-IsDecided (check s.cache_dir) _ (check-IsDecided s.cache_dir) λ u2.
              bind-IsDecided (check s.swap_dir) _ (check-IsDecided s.swap_dir) λ u3.
                bind-IsDecided (expect (load_modules_from_dir from_str split (s.files path))) _
                  (expect-IsDecided _) λ mods. inr (_, refl)

  -- The process starts modules exactly if the runtime, the configuration of the cluster and the
  -- client are there, the command line names a path, the two directories can be made, and the
  -- configuration file there can be loaded; these are then the modules of that file. In all other
  -- cases it panics, before anything is started.
  pub main-cases :
      (s : Surroundings Uri Service)
      → ((launch : Launch Uri Service)
          → (main from_str split s ≡ ok launch) ↔ IsLaunched from_str split s launch)
        × (((launch : Launch Uri Service) → ¬ IsLaunched from_str split s launch)
            → main from_str split s ≡ panicked)
  main-cases s = (
    λ launch. (main-ok s launch, ok-main s launch),
    λ never. elim (main-IsDecided s) [
      | inl e ↦ e
      | inr (launch, e) ↦ absurd (never launch (main-ok s launch e))
    ],
  )
