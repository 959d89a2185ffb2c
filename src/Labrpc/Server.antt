-- ===== src/Labrpc/Server.antt =====
-- A server and its services (src/labrpc/labrpc.go). Values of Go and their types, the encoding by gob and
-- the calls by reflection are parameters: a method is a function of the shared state and its
-- argument. `none` is a panic or a fatal error.
use Prim.Native.String.{String}
use Prim.Native.Char.{code}
use text.Mathlib.Text.{◌==◌ as str_eq}
use mit_distribution.Base.{
  ℕ, ◌+◌, Bool, true, ◌&&◌, Option, none, some, List, [], ◌∷◌, if◌then◌else◌, ◌==◌,
}
use mit_distribution.Base.Maps.{lookup, insert}
use mit_distribution.Labrpc.Network.{ReqMsg, ReplyMsg}

-- `strings.LastIndex(s, ".")` and the two slices that it cuts: `none` where there is no dot, which makes
-- the first slice panic.
unfoldable pub cut_last_dot : String → Option (String × String)
cut_last_dot String.[] = none
cut_last_dot (String.◌∷◌ c s) = elim (cut_last_dot s) [
  | some (service, method) ↦ some (String.◌∷◌ c service, method)
  | none ↦ if code c == b'.' then some ("", s) else none
]

module _ (V S : Type 0) where
  -- `type Service struct`: its name, and its handlers.
  pub record Service : Type 0 where
    pub name : String
    pub methods : List (String × (V → S → S × V))

  -- `type Server struct`
  pub record Server : Type 0 where
    pub services : List (String × Service)
    pub count : ℕ

  -- What reflection tells of a method of the receiver: `reply_is_ptr` is about its second argument, and
  -- `call` what it does.
  pub record MethodInfo : Type 0 where
    pub name : String
    pub pkg_path : String
    pub num_in : ℕ
    pub reply_is_ptr : Bool
    pub num_out : ℕ
    pub call : V → S → S × V

module _ {V S : Type 0} where
  -- The test of `MakeService`; the receiver counts as an input.
  unfoldable pub is_handler : MethodInfo V S → Bool
  is_handler m = str_eq m.pkg_path "" && (m.num_in == 3) && m.reply_is_ptr && (m.num_out == 0)

  -- The loop of `MakeService`.
  unfoldable pub add_methods :
      List (MethodInfo V S) → List (String × (V → S → S × V)) → List (String × (V → S → S × V))
  unfolding is_handler
  add_methods [] methods = methods
  add_methods (m ∷ ms) methods =
      add_methods ms (if is_handler m then insert m.name m.call methods else methods)

  unfoldable pub make_service : String → List (MethodInfo V S) → Service V S
  unfolding add_methods
  make_service name methods = record { name = name; methods = add_methods methods [] }

  unfoldable pub make_server : Server V S
  make_server = record { services = []; count = 0 }

  unfoldable pub add_service : Service V S → Server V S → Server V S
  add_service svc rs = record rs { services = insert svc.name svc rs.services }

  unfoldable pub get_count : Server V S → ℕ
  get_count rs = rs.count

  -- `Service.dispatch`: errors of the decoder are ignored, so `decode` gives what then stands in the
  -- argument.
  unfoldable pub dispatch_service :
      {T : Type 0}
      → (T → List ℕ → V)
      → (V → List ℕ)
      → Service V S
      → String
      → ReqMsg T
      → S
      → Option (S × ReplyMsg)
  dispatch_service decode encode svc methname req world = elim (lookup methname svc.methods) [
    | none ↦ none
    | some call ↦
        (let (world', reply) = call (decode req.args_type req.args) world in
          some (world', record { ok = true; reply = encode reply }))
  ]

  -- `Server.dispatch`
  unfoldable pub dispatch :
      {T : Type 0}
      → (T → List ℕ → V)
      → (V → List ℕ)
      → ReqMsg T
      → Server V S
      → S
      → Option (Server V S × S × ReplyMsg)
  unfolding cut_last_dot dispatch_service
  dispatch decode encode req rs world = elim (cut_last_dot req.svc_meth) [
    | none ↦ none
    | some (service_name, method_name) ↦ elim (lookup service_name rs.services) [
      | none ↦ none
      | some svc ↦ elim (dispatch_service decode encode svc method_name req world) [
        | none ↦ none
        | some (world', reply) ↦ some (record rs { count = rs.count + 1 }, world', reply)
      ]
    ]
  ]
