-- ===== src/Permissions/Builtins.antt =====
-- The built-in action families and wire names: permissions/builtins.py.
--
-- `type(...)` makes a fresh class object: its identity is an argument. The readable class name,
-- which nothing parses back, is not modelled.
use agents_system.Prelude.{
  ℕ, ◌≤◌, ◌+◌, String, List, [], ◌∷◌, Option, none, some, Result, ok, ◌>>=◌, ◌≡◌, ◌↔◌, arith, true,
}
use agents_system.Permissions.Base.{
  Tier, t0, t2, t3, tier_rank, Class, top, sub, tier_of, PermissionError, Declared, member,
  init_subclass, is_subclass, covers, class_eq,
}
use agents_system.Permissions.Base.Covers.{tier_rank-injective}
use agents_system.Permissions.Registry.{Registry, empty, register, get_or_register}

abbrev pub read : Class
read = top 0 t0

abbrev pub write : Class
write = top 1 t2

abbrev pub send : Class
send = top 2 t2

abbrev pub exec : Class
exec = top 3 t3

abbrev pub run : Class
run = top 4 t2

abbrev pub spawn : Class
spawn = top 5 t2

abbrev pub query : Class
query = top 6 t2

abbrev pub read_files : Class
read_files = sub 7 read t3

declared : Option Tier → Option Declared
declared none = none
declared (some tier) = some (member tier)

-- `_build_resource_class`
unfoldable pub build_resource_class : ℕ → Class → Option Tier → Result PermissionError Class
unfolding declared
build_resource_class id parent tier = init_subclass id (some parent) (declared tier)

unfoldable pub resource :
    ℕ → Class → String → Option Tier → Registry → Result PermissionError (Class × Registry)
resource id parent wire_name tier r = do
  cls ← build_resource_class id parent tier
  r' ← register (some cls) wire_name r
  ok (cls, r')

unfoldable pub ensure_resource_registered :
    ℕ → Class → String → Option Tier → Registry → Result PermissionError (Class × Registry)
ensure_resource_registered id parent wire_name tier r =
    get_or_register wire_name (λ _. build_resource_class id parent tier) r

-- `_RESOURCE_REGISTRATIONS`
abbrev pub resource_registrations : List (Class × String)
resource_registrations =
    (read, "read:catalog")
    ∷ (read, "read:client_registry")
    ∷ (read, "read:reports")
    ∷ (read, "read:knowledge_base")
    ∷ (read, "read:conversation_logs")
    ∷ (read, "read:session")
    ∷ (read, "read:price_lists")
    ∷ (read, "read:user_memory")
    ∷ (send, "send:message")
    ∷ (send, "send:escalation")
    ∷ (send, "send:proactive")
    ∷ (write, "write:orders")
    ∷ (write, "write:order_items")
    ∷ (write, "write:session")
    ∷ (write, "write:summary_output")
    ∷ (write, "write:user_memory")
    ∷ (write, "write:schedule")
    ∷ (exec, "exec:command")
    ∷ (spawn, "spawn:sales-agent")
    ∷ (spawn, "spawn:data-agent")
    ∷ (spawn, "spawn:summary-agent")
    ∷ (query, "query:sql")
    ∷ []

-- the loop at import time; the identities are counted on from `id`
unfoldable pub register_resources :
    ℕ → List (Class × String) → Registry → Result PermissionError Registry
register_resources id [] r = ok r
register_resources id ((parent, wire_name) ∷ rest) r = do
  (_, r') ← resource id parent wire_name none r
  register_resources (id + 1) rest r'

-- the module, imported: the table, then `read:files`
unfoldable pub registered_builtins : Result PermissionError Registry
registered_builtins = do
  r ← register_resources 8 resource_registrations empty
  register (some read_files) "read:files" r

is_subclass_refl : (c : Class) → is_subclass c c ≡ true
unfolding is_subclass
is_subclass_refl (top id t) = ground arith
is_subclass_refl (sub id p t) = ground arith

covers-sub :
    (id : ℕ) (parent : Class) (t : Tier)
    → tier_rank (tier_of parent) ≤ tier_rank t
    → (covers parent (sub id parent t) ≡ true) ↔ (t ≡ tier_of parent)
unfolding covers is_subclass tier_of
covers-sub id parent t le = (
  λ h. tier_rank-injective t (tier_of parent) (ground arith),
  λ e. ground (arith, is_subclass_refl parent),
)

-- A grant of a family covers a resource class made under it exactly when the resource keeps the
-- family's tier, and the resource never ranks below the family (R1).
pub covers-build_resource_class :
    (id : ℕ) (parent cls : Class) (tier : Option Tier)
    → build_resource_class id parent tier ≡ ok cls
    → (tier_rank (tier_of parent) ≤ tier_rank (tier_of cls))
      × ((covers parent cls ≡ true) ↔ (tier_of cls ≡ tier_of parent))
unfolding build_resource_class init_subclass tier_of
covers-build_resource_class id parent cls none h =
    ground (arith, covers-sub id parent (tier_of parent))
covers-build_resource_class id parent cls (some t) h = ground (arith, covers-sub id parent t)
