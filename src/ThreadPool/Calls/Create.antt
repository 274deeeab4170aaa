-- ===== src/ThreadPool/Calls/Create.antt =====
-- `Tpool_create` of fram/module/threadpool/src/Tpool.c, with the start of the monitor.
use my_resource.Base.{ℕ, Bool, false, ◌&&◌, [], leb, ◌==◌, if◌then◌else◌}
use my_resource.ThreadPool.WorkerList.{Code, success, error}
use my_resource.ThreadPool.Core.{ℤ, pos, negsuc, Pool, Start, create_worker}
use my_resource.ThreadPool.Calls.{Status, init, ready, unavailable}

-- `TPOOLATTR`
pub record Attr : Type 0 where
  pub maxsize : ℤ
  pub minsize : ℤ
  pub defsize : ℤ
  pub hload : ℤ
  pub lload : ℤ
  pub autoflag : ℤ
  pub frequency : ℤ
  pub overtime : ℤ

abbrev pub is_rate : ℤ → Bool
is_rate (pos n) = leb n 100
is_rate (negsuc n) = false

abbrev pub or_default : ℕ → ℕ → ℕ
or_default default n = if n == 0 then default else n

abbrev pub int_or : ℕ → ℤ → ℤ
int_or default (pos n) = pos (or_default default n)
int_or default (negsuc n) = negsuc n

-- The TPOOLDEF... constants in the place of what is 0. What is negative stays.
unfoldable pub filled : Attr → Attr
filled a = record {
  maxsize = int_or 128 a.maxsize;
  minsize = int_or 1 a.minsize;
  defsize = int_or 4 a.defsize;
  hload = int_or 80 a.hload;
  lload = int_or 20 a.lload;
  autoflag = int_or 1 a.autoflag;
  frequency = int_or 5 a.frequency;
  overtime = int_or 30 a.overtime;
}

-- How often a loop that counts an `int` down to 0 goes round.
abbrev pub turns : ℤ → ℕ
turns (pos n) = n
turns (negsuc n) = 0

-- The pool as the monitor finds it: the counters are not set. `Pool` has natural numbers for the
-- limits, in which a negative one, which nothing refuses, stands as 0.
unfoldable pub with_attr : Attr → Pool → Pool
with_attr a p = record p {
  maxsize = turns a.maxsize;
  minsize = turns a.minsize;
  hload = turns a.hload;
  lload = turns a.lload;
  workers = [];
}

-- `Tpool_create`, with what the monitor does at its start. `thread` says whether the monitor's thread
-- is made, `in_time` whether it has finished its start before the caller gives up; if not, what it
-- goes on to do with the list that the caller frees is left out.
unfoldable pub create : (ℕ → Start) → Bool → Bool → Attr → Pool → Code × Status × Pool
unfolding filled with_attr create_worker
create start thread in_time a p =
    if is_rate a.hload && is_rate a.lload
    then (let b = filled a in
        let q = with_attr b p in
        if thread
        then (let (code, r) = create_worker start (turns b.defsize) q in
            if in_time
            then elim code [
              | success ↦ (success, ready, r)
              | error ↦ (error, unavailable, record r { workers = [] })
            ]
            else (error, init, q))
        else (error, init, q))
    else (error, init, p)
