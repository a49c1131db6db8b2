-- ===== src/Command/Boot/Confinement.antt =====
-- runWithIO of cmd/server: the calls of the system that a server makes, from its start to its end.
use flashgate_mcp.Base.{
  ℕ, ◌≡◌, refl, sym, ap, ◌∙◌, ◌⊎◌, inl, inr, Bool, true, false, ◌&&◌, Option, List, [], ◌++◌,
  append-nil, All, String, Text, text_eq, if◌then◌else◌, subst, arith,
}
use flashgate_mcp.Base.Result.{Result, ok, err}
use flashgate_mcp.Errors.{Answer}
use flashgate_mcp.Json.{Json, Encoding}
use flashgate_mcp.Protocol.{Response}
use flashgate_mcp.Os.{Call, Reply, Os, getwd}
use flashgate_mcp.Os.Rules.{OnSuccess, Safe, Anything, Safe-return, Safe-bind, Safe-answer}
use flashgate_mcp.Os.World.{World, drive, drive-bind_ok, Extends, drive-Extends}
use flashgate_mcp.Filepath.{is_abs, dot}
use flashgate_mcp.Security.{new_path_guard_with_policy}
use flashgate_mcp.Security.Lexical.{IsRooted}
use flashgate_mcp.Security.Opening.{
  Inspecting, Guards, new_path_guard-Inspecting, new_path_guard-Guards,
}
use flashgate_mcp.Fs.Types.{LocalFileSystem, new_with_policy_and_limits, validate_limits}
use flashgate_mcp.Config.{Config, LoadError, Environment, load_from_environment}
use flashgate_mcp.Mcp.Registry.{Registry}
use flashgate_mcp.Mcp.Registry.Every.{Every, assign-Every}
use flashgate_mcp.Mcp.Router.{register, new_with_policy}
use flashgate_mcp.Mcp.Router.Preservation.{Preserves}
use flashgate_mcp.Mcp.Server.Preservation.{run-preserves}
use flashgate_mcp.Mcp.Tools.Tool.{Tool}
use flashgate_mcp.Mcp.Tools.Conformance.{Behaves}
use flashgate_mcp.Mcp.Tools.Calling.{handle_call}
use flashgate_mcp.Mcp.Tools.Calling.Answers.{EveryTool, CallAnswer, handle_call-CallAnswer}
use flashgate_mcp.Command.Boot.{
  Process, Input, development_cwd_warning, new_filesystem, create_router, router_of, warned, serve,
  serve_filesystem, serve_configured, run_with_io,
}
use flashgate_mcp.Command.Boot.Tools.{Within, create_tool_registry-Behaves}

new_filesystem-Inspecting : (c : Config) → Safe Inspecting Anything (new_filesystem c)
unfolding new_with_policy_and_limits
new_filesystem-Inspecting c =
    Safe-bind {R = Anything} _ _ (Safe-answer _)
      λ _ _. Safe-bind {R = Anything} _ _ (new_path_guard-Inspecting _ _) (λ g _. Safe-return _ tt)

module _ {S : Type 0} (reply : (c : Call) → S → Reply c × S) (e : Encoding) where
  create_router-Preserves :
      (P : Call → Type 0) (base : List Call) (name version : String) (registry : Registry Tool)
      → EveryTool (Behaves P) registry
      → Every
          (Preserves (Extends reply P base))
          (create_router reply e name version registry).handlers
  unfolding create_router register new_with_policy
  create_router-Preserves P base name version registry h =
      let I = Extends reply P base in
      assign-Every (Preserves I) _ _ _
        (assign-Every (Preserves I) _ _ _ (assign-Every (Preserves I) [] _ _ tt (λ params w k. k))
          (λ params w k. k))
        (λ params w k.
          drive-Extends reply P (CallAnswer e registry params) base (handle_call e registry params)
            w (handle_call-CallAnswer e registry params P h) k)

  -- What the server was started with, whose root has these names.
  pub record Started (env : Environment) (w : World S) (read_only : Bool) (bs : List Text)
      : Type 0 where
    pub config : Config
    pub files : LocalFileSystem
    pub loaded : load_from_environment env ≡ ok config
    pub opened : (drive reply (new_filesystem config) w).0 ≡ ok files
    pub guards : Guards config.filesystem.root_path files.guard bs
    pub profile : config.filesystem.read_only ≡ read_only

  -- The calls of a start only look. Those that follow, if any do, are the tools'.
  pub record Confines (env : Environment) (p q : World S) : Type 0 where
    pub starting : List Call
    pub serving : List Call
    pub trace_eq : q.trace ≡ (p.trace ++ starting) ++ serving
    pub looks : All Inspecting starting
    pub confined :
        (serving ≡ [])
        ⊎ ((read_only : Bool) × (bs : List Text) × Started env p read_only bs
            × All (Within read_only bs) serving)

  module _ (hw : (s : S) (wd : Text) → (reply getwd s).0 ≡ ok wd → is_abs wd ≡ true) where
    new_filesystem-Guards :
        (c : Config) (f : LocalFileSystem) (w : World S)
        → (drive reply (new_filesystem c) w).0 ≡ ok f
        → (bs : List Text) × Guards c.filesystem.root_path f.guard bs
    unfolding new_with_policy_and_limits drive
    new_filesystem-Guards c f w h =
        let (u, valid, h1) = drive-bind_ok reply (Os.ret (validate_limits _)) _ w f h in
        let (g, made, h2) = drive-bind_ok reply (new_path_guard_with_policy _ _) _ _ f h1 in
        let (bs, guards) = new_path_guard-Guards reply hw c.filesystem.root_path _ g _ made in
        let same : g ≡ f.guard = ground arith in
        (bs, subst (λ q. Guards c.filesystem.root_path q bs) same guards)

    module _ (decode : List ℕ → Option Json) (encode : Response → List ℕ) (is_cancelled : ℕ → Bool)
        (input : Input) where
      warned-world : (c : Config) (p : Process S) → (warned reply e c p).world ≡ p.world
      unfolding warned
      warned-world c p = by_flag (text_eq c.filesystem.root_path dot && c.filesystem.allow_cwd_root)
        where
          by_flag :
              (b : Bool)
              → (if b then record p { stderr = p.stderr ++ development_cwd_warning } else p).world
                ≡ p.world
          by_flag true = refl
          by_flag false = refl

      serve-Extends :
          (c : Config) (f : LocalFileSystem) (bs : List Text) (p : Process S) (base : List Call)
          → IsRooted f.guard bs
          → Extends reply (Within c.filesystem.read_only bs) base p.world
          → Extends reply
              (Within c.filesystem.read_only bs)
              base
              (serve reply e decode encode is_cancelled input c (router_of reply e c f) p).1.world
      unfolding serve router_of
      serve-Extends c f bs p base hf h =
          run-preserves (Extends reply (Within c.filesystem.read_only bs) base)
            (router_of reply e c f)
            (create_router-Preserves (Within c.filesystem.read_only bs) base _ _ _ (
              create_tool_registry-Behaves e f bs hf c.filesystem.max_file_size
                c.filesystem.read_only))
            decode encode is_cancelled _ h

      -- The calls that open the file system.
      opening :
          (c : Config) (w : World S)
          → Extends reply Inspecting w.trace (drive reply (new_filesystem c) w).1
      opening c w =
          drive-Extends reply Inspecting (OnSuccess Anything) w.trace (new_filesystem c) w
            (new_filesystem-Inspecting c).holds ([], sym (append-nil w.trace), tt)

      serve_filesystem-Confines :
          (env : Environment) (p : Process S) (c : Config) (r : Answer LocalFileSystem)
          → load_from_environment env ≡ ok c
          → (drive reply (new_filesystem c) p.world).0 ≡ r
          → Confines env p.world
              (serve_filesystem reply e decode encode is_cancelled input c r
                (record p { world = (drive reply (new_filesystem c) p.world).1 })).1.world
      unfolding serve_filesystem
      serve_filesystem-Confines env p c (err x) loaded opened =
          let (ds, same, looks) = opening c p.world in
          record {
            starting = ds;
            serving = [];
            trace_eq = same ∙ sym (append-nil _);
            looks = looks;
            confined = inl refl;
          }
      serve_filesystem-Confines env p c (ok f) loaded opened =
          let (ds, same, looks) = opening c p.world in
          let w = (drive reply (new_filesystem c) p.world).1 in
          let started : Process S = warned reply e c (record p { world = w }) in
          let (bs, guards) = new_filesystem-Guards c f p.world opened in
          let P = Within c.filesystem.read_only bs in
          let (cs, more, all) = serve-Extends c f bs started w.trace guards.rooted (
            subst (Extends reply P w.trace) (sym (warned-world c (record p { world = w })))
              ([], sym (append-nil w.trace), tt)) in
          record {
            starting = ds;
            serving = cs;
            trace_eq = more ∙ ap (λ t. t ++ cs) same;
            looks = looks;
            confined = inr (
              c.filesystem.read_only,
              bs,
              record {
                config = c;
                files = f;
                loaded = loaded;
                opened = opened;
                guards = guards;
                profile = refl;
              },
              all,
            );
          }

      -- For a system whose working directory is absolute, and that may change its state in any
      -- way, with any environment and any input, the calls of a server from its start to its end
      -- are those of the start, which only look, and then those of the tools, if the configuration
      -- is loaded and the root is opened: each of these, but os.Stat, EvalSymlinks and those on
      -- open files, names only paths below the root of the guard, which is MCP_ROOT cleaned, where
      -- that is absolute; and with a read-only profile none of them changes anything.
      pub run_with_io-Confines :
          (env : Environment) (p : Process S)
          → Confines env p.world
              (run_with_io reply e decode encode is_cancelled input env p).1.world
      unfolding run_with_io serve_configured
      run_with_io-Confines env p = by_config (load_from_environment env) refl
        where
          by_config :
              (r : Result LoadError Config)
              → load_from_environment env ≡ r
              → Confines env p.world
                  (serve_configured reply e decode encode is_cancelled input r p).1.world
          by_config (err x) loaded = record {
            starting = [];
            serving = [];
            trace_eq = sym (append-nil _ ∙ append-nil _);
            looks = tt;
            confined = inl refl;
          }
          by_config (ok c) loaded =
              serve_filesystem-Confines env p c (drive reply (new_filesystem c) p.world).0 loaded
                refl
