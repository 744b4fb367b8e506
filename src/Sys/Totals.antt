-- ===== src/Sys/Totals.antt =====
-- The sums over the nodes.
use gim.Base.{ℕ, suc, ◌+◌, ◌≡◌, ◌≢◌, refl, Option, none, some, List, [], ◌∷◌, arith, length}
use gim.Types.Server.{SysInfo, SycCollectInfo, WsManagerInfo}
use gim.Sys.{add_nodes, plus}

abbrev pub clients_of : Option WsManagerInfo → ℕ
clients_of none = 0
clients_of (some m) = m.clients_len

abbrev pub groups_of : Option WsManagerInfo → ℕ
groups_of none = 0
groups_of (some m) = m.t_group_len

present : {A : Type 0} (o : Option A) → o ≢ none → (a : A) × (o ≡ some a)
present none h = absurd (h refl)
present (some a) h = (a, refl)

module _ {P : Type 0} where
  abbrev pub sum_of : (SysInfo P → ℕ) → List (SysInfo P) → ℕ
  sum_of f [] = 0
  sum_of f (i ∷ is) = f i + sum_of f is

  -- Every report has its manager information.
  abbrev pub AllManaged : List (SysInfo P) → Type 0
  AllManaged [] = Unit
  AllManaged (i ∷ is) = (i.manager_info ≢ none) × AllManaged is

  -- `c'` is `c` with the reports added.
  pub record Totals (c c' : SycCollectInfo P) (is : List (SysInfo P)) : Type 0 where
    pub nodes : c'.node_num ≡ c.node_num + length is
    pub cpus : c'.sys_info.num_cpu ≡ c.sys_info.num_cpu + sum_of (λ i. i.num_cpu) is
    pub goroutines :
        c'.sys_info.num_goroutine ≡ c.sys_info.num_goroutine + sum_of (λ i. i.num_goroutine) is
    pub clients :
        clients_of c'.sys_info.manager_info
        ≡ clients_of c.sys_info.manager_info + sum_of (λ i. clients_of i.manager_info) is
    pub groups :
        groups_of c'.sys_info.manager_info
        ≡ groups_of c.sys_info.manager_info + sum_of (λ i. groups_of i.manager_info) is
    pub same_list : c'.node_list ≡ c.node_list

  -- One report added.
  abbrev added : SycCollectInfo P → SysInfo P → WsManagerInfo → WsManagerInfo → SycCollectInfo P
  added c i a b = record c {
    node_num = suc c.node_num;
    sys_info = record (c.sys_info) {
      version = i.version;
      num_cpu = c.sys_info.num_cpu + i.num_cpu;
      num_goroutine = c.sys_info.num_goroutine + i.num_goroutine;
      manager_info = some (plus a b);
    };
  }

  added-Totals :
      (c c' : SycCollectInfo P) (i : SysInfo P) (is : List (SysInfo P)) (a b : WsManagerInfo)
      → c.sys_info.manager_info ≡ some a
      → i.manager_info ≡ some b
      → Totals (added c i a b) c' is
      → Totals c c' (i ∷ is)
  added-Totals c c' i is a b ea eb t = record {
    nodes = ground (arith, t.nodes);
    cpus = ground (arith, t.cpus);
    goroutines = ground (arith, t.goroutines);
    clients = ground (arith, t.clients);
    groups = ground (arith, t.groups);
    same_list = t.same_list;
  }

  -- With every report complete the sum is made, and adds up nodes, processors, goroutines, clients
  -- and groups; a report without manager information is a panic.
  pub add_nodes-Totals :
      (is : List (SysInfo P)) (c : SycCollectInfo P)
      → AllManaged is
      → c.sys_info.manager_info ≢ none
      → (c' : SycCollectInfo P) × (add_nodes c is ≡ some c') × Totals c c' is
  unfolding add_nodes
  add_nodes-Totals [] c h m = (
    c,
    refl,
    record {
      nodes = omega arith;
      cpus = omega arith;
      goroutines = omega arith;
      clients = omega arith;
      groups = omega arith;
      same_list = refl;
    },
  )
  add_nodes-Totals (i ∷ is) c h m =
      let (a, ea) = present c.sys_info.manager_info m in
      let (b, eb) = present i.manager_info h.0 in
      let (c', e, t) = add_nodes-Totals is (added c i a b) h.1 (λ q. cc) in
      (c', ground (arith, ea, eb, e), added-Totals c c' i is a b ea eb t)
