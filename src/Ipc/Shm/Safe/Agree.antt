-- ===== src/Ipc/Shm/Safe/Agree.antt =====
-- The functions with a lock against those without.
use my_resource.Base.{
  ℕ, ◌≡◌, ◌≢◌, refl, Bool, true, false, Bool-cases, Option-cases, inl, inr, ◌⊎◌, Option, none, some,
  List, length, ◌==◌, ◌||◌,
}
use my_resource.Base.Fault.{Holds}
use my_resource.Ipc.Rows.{Row}
use my_resource.Ipc.Shm.{
  Str, Block, Segment, System, Ret, failed, timeout, returned, opened, block_info, shm_getblockinfo,
  find_block, shm_upload,
}
use my_resource.Ipc.Shm.Query.{download, shm_download, download_block, shm_select}
use my_resource.Ipc.Shm.Safe.{
  Wait, locked, timed_out, refused, Lock, Entry, entered, stopped, enter, shm_getblockinfo_safe,
  shm_setblockinfo_safe, shm_upload_safe, shm_download_safe, shm_select_safe, waited,
}

-- What a caller gets before the segment is entered.
abbrev entry : Option Segment → Entry
entry none = stopped failed
entry (some s) = entered s

enter_locked :
    (sys : System) (l : Lock) (seg : Option Segment)
    → l.present ≡ true
    → l.wait ≡ locked
    → enter sys l seg ≡ entry (opened sys seg)
unfolding enter
enter_locked sys l seg here got = elim (Option-cases (opened sys seg)) [
  | inl e ↦ rw (e, enter, here) refl
  | inr (s, e) ↦ rw (e, enter, here, got) refl
]

-- Without a condition the value for a key that is not there does not matter.
download_absent :
    (given : Bool) (r q : Ret) (s : Segment) (name : Str)
    → download given r s none name ≡ download given q s none name
unfolding block_info download_block download
download_absent true r q s name = elim (Option-cases (find_block s.blocks name)) [
  | inl e ↦ rw (e, download, block_info) refl
  | inr (b, e) ↦ rw (e, download, block_info) refl
]
download_absent false r q s name = elim (Option-cases (find_block s.blocks name)) [
  | inl e ↦ rw (e, download, block_info) refl
  | inr (b, e) ↦ rw (e, download, block_info) refl
]

module _ (sys : System) (l : Lock) (seg : Option Segment) (here : l.present ≡ true)
    (got : l.wait ≡ locked) (name : Str) where
  getblockinfo_agree :
      shm_getblockinfo_safe sys l seg (some name) ≡ shm_getblockinfo sys seg (some name)
  unfolding shm_getblockinfo_safe shm_getblockinfo
  getblockinfo_agree = elim (Option-cases (opened sys seg)) [
    | inl e ↦ rw (shm_getblockinfo_safe, enter_locked sys l seg here got, e, shm_getblockinfo) refl
    | inr (s, e) ↦
        rw (shm_getblockinfo_safe, enter_locked sys l seg here got, e, shm_getblockinfo) refl
  ]

  download_agree : shm_download_safe sys l seg none name ≡ shm_download sys seg none name
  unfolding shm_download_safe shm_download
  download_agree = elim (Option-cases (opened sys seg)) [
    | inl e ↦ rw (shm_download_safe, enter_locked sys l seg here got, e, shm_download) refl
    | inr (s, e) ↦
        rw (shm_download_safe, enter_locked sys l seg here got, e, shm_download)
          (download_absent sys.given (returned 0) failed s name)
  ]

  select_agree : (c : Option Row) → shm_select_safe sys l seg c name ≡ shm_select sys seg c name
  unfolding shm_select_safe shm_select
  select_agree c = elim (Option-cases (opened sys seg)) [
    | inl e ↦ rw (shm_select_safe, enter_locked sys l seg here got, e, shm_select) refl
    | inr (s, e) ↦ rw (shm_select_safe, enter_locked sys l seg here got, e, shm_select) refl
  ]

  upload_agree :
      (bytes : List ℕ) (sublen condoffset condlen : ℕ)
      → shm_upload_safe sys l seg bytes sublen condoffset condlen name
        ≡ shm_upload sys seg bytes sublen condoffset condlen name
  unfolding shm_upload_safe shm_upload
  upload_agree bytes sublen condoffset condlen =
      elim (Bool-cases (length bytes == 0 || sublen == 0)) [
        | inl bad ↦ rw (shm_upload_safe, shm_upload, bad) refl
        | inr good ↦ elim (Option-cases (opened sys seg)) [
          | inl e ↦ rw (shm_upload_safe, shm_upload, good, enter_locked sys l seg here got, e) refl
          | inr (s, e) ↦
              rw (shm_upload_safe, shm_upload, good, enter_locked sys l seg here got, e) refl
        ]
      ]

  -- With the lock there and got, the functions that take it do what those without it do: they return
  -- the same, the data and the segment included. For `shm_download_safe` this is said of a call
  -- without a condition, since it differs for an index that no record of a sorted block has.
  pub safe_agree :
      (bytes : List ℕ) (sublen condoffset condlen : ℕ) (c : Option Row)
      → (shm_upload_safe sys l seg bytes sublen condoffset condlen name
          ≡ shm_upload sys seg bytes sublen condoffset condlen name)
        × (shm_select_safe sys l seg c name ≡ shm_select sys seg c name)
        × (shm_download_safe sys l seg none name ≡ shm_download sys seg none name)
        × (shm_getblockinfo_safe sys l seg (some name) ≡ shm_getblockinfo sys seg (some name))
  safe_agree bytes sublen condoffset condlen c = (
    upload_agree bytes sublen condoffset condlen,
    select_agree c,
    download_agree,
    getblockinfo_agree,
  )

-- How an entry ends.
abbrev Ended : Entry → Type 0
Ended e = ((s : Segment) × (e ≡ entered s)) ⊎ ((e ≡ stopped failed) ⊎ (e ≡ stopped timeout))

waited-Ended : (w : Wait) (s : Segment) → Ended (waited w s)
unfolding waited
waited-Ended locked s = inl (s, refl)
waited-Ended timed_out s = inr (inr refl)
waited-Ended refused s = inr (inl refl)

enter-Ended : (sys : System) (l : Lock) (seg : Option Segment) → Ended (enter sys l seg)
unfolding enter
enter-Ended sys l seg = elim (Bool-cases l.present) [
  | inr absent ↦ inr (inl (rw (enter, absent) refl))
  | inl there ↦ elim (Option-cases (opened sys seg)) [
    | inl e ↦ inr (inl (rw (enter, there, e) refl))
    | inr (s, e) ↦
        let same : enter sys l seg ≡ waited l.wait s = rw (enter, there, e) refl in
        rw same (waited-Ended l.wait s)
  ]
]

-- No call of `shm_setblockinfo_safe` changes a description, whatever the lock does: it never returns
-- 0, and the segment stays as it is.
pub setblockinfo_safe-failed :
    (sys : System) (l : Lock) (seg : Option Segment) (c : Option Block)
    → Holds (λ r. (r.0 ≢ returned 0) × (r.1 ≡ seg)) (shm_setblockinfo_safe sys l seg c)
unfolding shm_setblockinfo_safe
setblockinfo_safe-failed sys l seg (some c) = ((λ e. cc), refl)
setblockinfo_safe-failed sys l seg none = elim (enter-Ended sys l seg) [
  | inl (s, e) ↦ rw (Holds, shm_setblockinfo_safe, e) tt
  | inr (inl e) ↦ rw (Holds, shm_setblockinfo_safe, e) ((λ f. cc), refl)
  | inr (inr e) ↦ rw (Holds, shm_setblockinfo_safe, e) ((λ f. cc), refl)
]
