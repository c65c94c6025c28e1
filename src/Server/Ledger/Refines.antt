-- ===== src/Server/Ledger/Refines.antt =====
-- Each of the three functions on tasks is one step of the account.
use computing_cluster.Base.{
  ℕ, ◌+◌, ◌*◌, ◌≤◌, ◌≡◌, ◌≢◌, ◌<◌, refl, sym, ap, ◌∙◌, subst, Bool, true, false, not, ◌&&◌, List,
  none, some, arith, inl, inr, ◌==◌, ltb, if◌then◌else◌, length, get_elem?, get_elem?-lt,
  get_elem?_out, get_elem?-none, get_elem?_total, ne→==, Option-cases, Bool-cases,
}
use mathlib.Core.Path.{fun_ext}
use computing_cluster.Base.Count.{count}
use computing_cluster.Base.Each.{get_elem?-set}
use computing_cluster.Config.{no_task, sizeof_header}
use computing_cluster.System.Packs.{
  pack, splice, length-pack, pack-splice_same, pack-splice_other, regions_apart, region_inside,
}
use computing_cluster.Server.Types.{
  Connection, Status, not_resolved, resolving, completed, TaskInfo, TaskPool, ClusterServerHandle,
}
use computing_cluster.Server.Invariant.{ServerInv}
use computing_cluster.Server.Tasks.{with_status}
use computing_cluster.Server.Tasks.Statuses.{agree, status_at, status_at-eq, status_at-none}
use computing_cluster.Server.Tasks.Owners.{held, count-le-held, PoolInv-IsHeld}
use computing_cluster.Server.Tasks.Give.{Gives}
use computing_cluster.Server.Tasks.Give
use computing_cluster.Server.Tasks.Collect.{Collected, value, collected}
use computing_cluster.Server.Tasks.Release.{Releases, PutsBack}
use computing_cluster.Server.Ledger.{
  absent, waiting, given, done, update, give_back, Step, give, collect, release,
}
use computing_cluster.Server.Ledger.View.{by_status, mark_of, stored_value, ledger}

pub waiting-inv : (v : List ℕ) (s : Status) → by_status v s ≡ waiting → agree not_resolved s ≡ 1
waiting-inv v not_resolved e = refl
waiting-inv v resolving e = cc
waiting-inv v completed e = cc

module _ (h : ClusterServerHandle) (conn_i : ℕ) (conn : Connection) where
  -- A task is given.
  ledger-given :
      (i : ℕ) (t : TaskInfo) (cells : List ℕ)
      → get_elem? h.task_manager i ≡ some t
      → ledger (Give.given h conn_i conn i t cells) ≡ update (ledger h) i given
  ledger-given i t cells there = fun_ext λ j.
      let moved =
        get_elem?-set h.task_manager i j (with_status t resolving)
          (get_elem?-lt h.task_manager i there) in
      elim (Bool-cases (i == j)) [ inl e ↦ rw (moved, e) refl | inr e ↦ rw (moved, e) refl ]

  waits :
      (t : TaskInfo) (j : ℕ)
      → get_elem? h.task_manager j ≡ some t
      → t.status ≡ not_resolved
      → ledger h j ≡ waiting
  waits t j there free = rw (there, free)

  earlier_busy : (j : ℕ) → status_at not_resolved h.task_manager j ≡ 0 → ledger h j ≢ waiting
  earlier_busy j z w = elim (Option-cases (get_elem? h.task_manager j)) [
    | inl out ↦ absurd (let x : absent ≡ waiting = rw out at w in cc)
    | inr (t, e) ↦ absurd (
        omega (
          arith,
          z,
          status_at-eq not_resolved h.task_manager j t e,
          waiting-inv (stored_value h j) t.status (rw e at w),
        ))
  ]

  -- The task that is given is the first that waits.
  pub Gives-first :
      {h' : ClusterServerHandle} (task_list_i : ℕ)
      → (g : Gives h conn_i conn task_list_i h')
      → (ledger h g.task ≡ waiting)
        × ((j : ℕ) → j < g.task → ledger h j ≢ waiting)
        × (ledger h' ≡ update (ledger h) g.task given)
  Gives-first task_list_i g =
      let f = g.first in
      (
        waits f.info g.task f.there f.free,
        (λ j lt. earlier_busy j (f.earlier j (omega arith) lt)),
        ap ledger g.result ∙ ledger-given g.task f.info g.cells f.there,
      )

  pub Gives-Step :
      {h' : ClusterServerHandle} (task_list_i : ℕ)
      → Gives h conn_i conn task_list_i h'
      → Step (ledger h) (ledger h')
  Gives-Step task_list_i g =
      let (waits, first, e) = Gives-first task_list_i g in
      subst (Step (ledger h)) (sym e) (give g.task waits first)

-- A value that was stored is the mark of its task, and no other task's value is touched.
module _ (h : ClusterServerHandle) (v : ServerInv h) (conn_i : ℕ) (conn : Connection)
    (there : get_elem? h.client_conns conn_i ≡ some conn) (t : ℕ) (info : TaskInfo)
    (t_there : get_elem? h.task_manager t ≡ some info) where
  length-value : length (value h conn) ≡ h.ret_size
  length-value = omega (
    arith,
    length-pack conn.recv_buffer sizeof_header h.ret_size
        (omega (arith, (v.connections conn_i conn there).buffer)),
  )

  fits : t * h.ret_size + length (value h conn) ≤ length h.user_rets
  fits =
      rw (length-value, v.ret_bytes)
        (region_inside t h.num_tasks h.ret_size h.ret_size
          (omega (arith, v.tasks.sized, get_elem?-lt h.task_manager t t_there)) (omega arith))

  stored_same :
      pack (splice h.user_rets (t * h.ret_size) (value h conn)) (t * h.ret_size) h.ret_size
      ≡ value h conn
  stored_same =
      subst
        (λ n.
          pack (splice h.user_rets (t * h.ret_size) (value h conn)) (t * h.ret_size) n
          ≡ value h conn)
        length-value (pack-splice_same h.user_rets (t * h.ret_size) (value h conn) fits)

  stored_other :
      (j : ℕ)
      → t ≢ j
      → pack (splice h.user_rets (t * h.ret_size) (value h conn)) (j * h.ret_size) h.ret_size
        ≡ stored_value h j
  stored_other j ne =
      pack-splice_other h.user_rets (t * h.ret_size) (value h conn) (j * h.ret_size) h.ret_size fits
        (rw length-value
          (regions_apart t j h.ret_size h.ret_size h.ret_size ne (omega arith) (omega arith)))

  ledger-collected :
      (cells : List ℕ)
      → ledger (collected h conn_i conn t info cells) ≡ update (ledger h) t (done (value h conn))
  ledger-collected cells = fun_ext λ j.
      let moved =
        get_elem?-set h.task_manager t j (with_status info completed)
          (get_elem?-lt h.task_manager t t_there) in
      let at = (v.laid_out t info t_there).ret_at in
      elim (Bool-cases (t == j)) [
        | inl e ↦ let same : t ≡ j = ground arith in rw (moved, e, at, ← same) (ap done stored_same)
        | inr e ↦
            rw (moved, e, at)
              (ap (λ b. mark_of b (get_elem? h.task_manager j))
                (stored_other j (λ same. ground arith)))
      ]

-- The value behind the header becomes the mark of a task that was given.
pub Collected-value :
    {h h' : ClusterServerHandle} (conn_i t : ℕ)
    → ServerInv h
    → (c : Collected h conn_i t h')
    → (ledger h t ≡ given) × (ledger h' ≡ update (ledger h) t (done (value h c.conn)))
Collected-value {h} {h'} conn_i t v c =
    let k = c.collects in
    let held_by =
      PoolInv-IsHeld (λ j. count j (held h.client_conns)) t v.tasks c.valid
        (omega (arith, count-le-held t h.client_conns conn_i c.conn c.there, c.listed)) in
    (
      rw (held_by.there, held_by.busy) refl,
      ap ledger k.result ∙ ledger-collected h v conn_i c.conn c.there t k.info k.there k.cells,
    )

pub Collected-Step :
    {h h' : ClusterServerHandle} (conn_i t : ℕ)
    → ServerInv h
    → Collected h conn_i t h'
    → Step (ledger h) (ledger h')
Collected-Step {h} {h'} conn_i t v c =
    let (was, e) = Collected-value conn_i t v c in
    subst (Step (ledger h)) (sym e) (collect t (value h c.conn) was)

-- What the statuses of a task before and after its connection was lost say about its mark.
put_back_mark :
    (val : List ℕ) (s s' : Status) (c : ℕ)
    → agree completed s' ≡ agree completed s
    → agree not_resolved s' ≡ c + agree not_resolved s
    → (by_status val s' ≡ (if ltb 0 c then waiting else by_status val s))
      × (ltb 0 c ≡ true → by_status val s ≡ given)
put_back_mark val not_resolved not_resolved c a b = ground arith
put_back_mark val not_resolved resolving c a b = absurd (omega arith)
put_back_mark val not_resolved completed c a b = absurd (omega arith)
put_back_mark val resolving not_resolved c a b = ground arith
put_back_mark val resolving resolving c a b = ground arith
put_back_mark val resolving completed c a b = absurd (omega arith)
put_back_mark val completed not_resolved c a b = absurd (omega arith)
put_back_mark val completed resolving c a b = absurd (omega arith)
put_back_mark val completed completed c a b = ground arith

-- The tasks that a list of cells names.
abbrev pub named : (cells : List ℕ) → ℕ → Bool
named cells j = not (j == no_task) && ltb 0 (count j cells)

module _ {h : ClusterServerHandle} (v : ServerInv h) (cells : List ℕ) (p' : TaskPool)
    (back : PutsBack h.pool cells p') (sized : length p'.task_manager ≡ p'.num_tasks) where
  same_length : length p'.task_manager ≡ length h.task_manager
  same_length = omega (arith, sized, back.num, v.tasks.sized)

  -- The mark of one task after its connection was lost.
  abbrev Returned : ℕ → Type 0
  Returned j =
      (mark_of (stored_value h j) (get_elem? p'.task_manager j)
        ≡ (if named cells j then waiting else ledger h j))
      × (named cells j ≡ true → ledger h j ≡ given)

  Returned-none : (j : ℕ) → get_elem? h.task_manager j ≡ none → named cells j ≡ false → Returned j
  Returned-none j out unnamed =
      let out' : get_elem? p'.task_manager j ≡ none =
        get_elem?_out p'.task_manager j
          (omega (arith, same_length, get_elem?-none h.task_manager j out)) in
      rw (out, out', unnamed) (refl, λ e. cc)

  not_named : (j : ℕ) → get_elem? h.task_manager j ≡ none → named cells j ≡ false
  not_named j out = elim (Bool-cases (j == no_task)) [
    | inl e ↦ rw e refl
    | inr e ↦
        let n : j ≢ no_task = λ x. ground arith in
        let out' : get_elem? p'.task_manager j ≡ none =
          get_elem?_out p'.task_manager j
            (omega (arith, same_length, get_elem?-none h.task_manager j out)) in
        let none_there : count j cells ≡ 0 =
          omega (arith, back.returned j n, status_at-none not_resolved p'.task_manager j out') in
        rw (e, none_there) refl
  ]

  Returned-some : (j : ℕ) (t : TaskInfo) → get_elem? h.task_manager j ≡ some t → Returned j
  Returned-some j t e =
      let bound = get_elem?-lt h.task_manager j e in
      let n : j ≢ no_task = λ x. absurd (omega (arith, x, bound, v.tasks.sized, v.tasks.small)) in
      let is : (j == no_task) ≡ false = ne→== j no_task n in
      let (t', e') = get_elem?_total p'.task_manager j (omega (arith, bound, same_length)) in
      let a : agree completed t'.status ≡ agree completed t.status = omega (
        arith,
        back.kept j n,
        status_at-eq completed p'.task_manager j t' e',
        status_at-eq completed h.task_manager j t e,
      ) in
      let b : agree not_resolved t'.status ≡ count j cells + agree not_resolved t.status = omega (
        arith,
        back.returned j n,
        status_at-eq not_resolved p'.task_manager j t' e',
        status_at-eq not_resolved h.task_manager j t e,
      ) in
      rw (e, e', is) (put_back_mark (stored_value h j) t.status t'.status (count j cells) a b)

  pub Returned-at : (j : ℕ) → Returned j
  Returned-at j = elim (Option-cases (get_elem? h.task_manager j)) [
    | inl out ↦ Returned-none j out (not_named j out)
    | inr (t, e) ↦ Returned-some j t e
  ]

-- Exactly the tasks that the connection's cells name wait again, and they were given.
pub Releases-named :
    {h h' : ClusterServerHandle} (conn_i : ℕ) (conn : Connection)
    → ServerInv h
    → ServerInv h'
    → Releases h conn_i conn h'
    → ((j : ℕ) → named conn.task_list j ≡ true → ledger h j ≡ given)
      × (ledger h' ≡ give_back (ledger h) (named conn.task_list))
Releases-named {h} {h'} conn_i conn v v' r =
    let sized : length r.pool.task_manager ≡ r.pool.num_tasks =
      subst (λ x. length x.task_manager ≡ x.num_tasks) r.result v'.tasks.sized in
    let all = Returned-at v conn.task_list r.pool r.put_back sized in
    ((λ j e. (all j).1 e), ap ledger r.result ∙ fun_ext λ j. (all j).0)

pub Releases-Step :
    {h h' : ClusterServerHandle} (conn_i : ℕ) (conn : Connection)
    → ServerInv h
    → ServerInv h'
    → Releases h conn_i conn h'
    → Step (ledger h) (ledger h')
Releases-Step {h} {h'} conn_i conn v v' r =
    let (were, e) = Releases-named conn_i conn v v' r in
    subst (Step (ledger h)) (sym e) (release (named conn.task_list) were)
