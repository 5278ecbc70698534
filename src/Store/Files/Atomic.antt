-- ===== src/Store/Files/Atomic.antt =====
-- `SaveState` replaces the state file at one moment.
use text.Mathlib.TextLemmas.{append-nil, append_cancel_left, append-eq-nil_iff}
use kubeforward.Base.{
  ℕ, ◌≡◌, ◌≢◌, refl, sym, ◌∙◌, ◌⊎◌, inl, inr, String, ◌<>◌, Bool, true, false, Option, none, some,
  List, [], ◌∷◌, ◌++◌, ◌==◌, string_eq, map, All, All-append, ==_iff, Bool-cases, Option-cases,
  is_empty, to_string,
}
use kubeforward.Session.{RuntimeState}
use kubeforward.Store.Nodes.{Nodes}
use kubeforward.Store.Serialize.{serialize_state}
use kubeforward.Store.Files.{
  Saving, Locking, Disk, Saved, put, state_lock_path, build_temporary_state_path,
  open_and_lock_state_file, last_of, remove_temporary, write_state, save_locked, save_state,
}

append-ne : (s t : String) → t ≢ "" → (s <> t) ≢ s
append-ne s t h e = h (append_cancel_left s t "" (e ∙ sym (append-nil s)))

pub lock-ne : (path : String) → (state_lock_path path == path) ≡ false
lock-ne path = elim (Bool-cases (state_lock_path path == path)) [
  | inr e ↦ e
  | inl e ↦ absurd (append-ne path ".lock" (λ p. cc) ((==_iff _ path).0 e))
]

pub temporary-ne : (pid : ℕ) (path : String) → (build_temporary_state_path pid path == path) ≡ false
temporary-ne pid path = elim (Bool-cases (build_temporary_state_path pid path == path)) [
  | inr e ↦ e
  | inl e ↦ absurd (
      append-ne path (".tmp." <> to_string pid) (λ p. let q = (append-eq-nil_iff.0 p).0 in cc)
        ((==_iff _ path).0 e))
]

module _ (N : Nodes) (parent_path : String → String) (path : String) (new : N.Contents) where
  -- The file at `path` is as on the first disk.
  abbrev pub Same : Disk N parent_path → Disk N parent_path → Type 0
  Same before disk = disk path ≡ before path

  -- Either the save succeeds, the file then has the new contents, and it had the old ones at every
  -- moment before; or it fails, and the file has the old contents at every moment and at the end.
  abbrev pub Replaces : Disk N parent_path → Saved N parent_path → Type 0
  Replaces before saved =
      ((saved.error ≡ none) × (saved.disk path ≡ some new) × All (Same before) saved.passed)
      ⊎ ((error : String) × (saved.error ≡ some error)
          × All (Same before) (saved.disk ∷ saved.passed))

  put-Same :
      (other : String) (contents : Option N.Contents) (before disk : Disk N parent_path)
      → (other == path) ≡ false
      → Same before disk
      → Same before (put N parent_path other contents disk)
  put-Same other contents before disk e h = rw e h

  writing-Same :
      (tmp : String) (written : List N.Contents) (before disk : Disk N parent_path)
      → (tmp == path) ≡ false
      → Same before disk
      → All (Same before) (map (λ c. put N parent_path tmp (some c) disk) written)
  writing-Same tmp [] before disk e h = tt
  writing-Same tmp (c ∷ written) before disk e h =
      (put-Same tmp (some c) before disk e h, writing-Same tmp written before disk e h)

  last_of-Same :
      (ds : List (Disk N parent_path)) (before disk : Disk N parent_path)
      → All (Same before) ds
      → Same before disk
      → Same before (last_of N parent_path ds disk)
  last_of-Same [] before disk hs h = h
  last_of-Same (d ∷ ds) before disk hs h = hs.0

  remove_temporary-Same :
      (works : Bool) (tmp : String) (before disk : Disk N parent_path)
      → (tmp == path) ≡ false
      → Same before disk
      → Same before (remove_temporary N parent_path works tmp disk)
  remove_temporary-Same true tmp before disk e h = rw e h
  remove_temporary-Same false tmp before disk e h = h

  write_state-Replaces :
      (calls : Saving N.Contents) (before disk : Disk N parent_path)
      → Same before disk
      → Replaces before (write_state N parent_path calls path new disk)
  unfolding write_state
  write_state-Replaces calls before disk h =
      let tmp = build_temporary_state_path calls.pid path in
      let e = temporary-ne calls.pid path in
      let opened = put N parent_path tmp (some N.empty_contents) disk in
      let opened_h = put-Same tmp (some N.empty_contents) before disk e h in
      let writing = map (λ (c : N.Contents). put N parent_path tmp (some c) disk) calls.written in
      let writing_h = writing-Same tmp calls.written before disk e h in
      let complete = put N parent_path tmp (some new) disk in
      let complete_h = put-Same tmp (some new) before disk e h in
      let passed_h : All (Same before) (writing ++ opened ∷ disk ∷ []) =
        All-append (Same before) writing (opened ∷ disk ∷ []) writing_h (opened_h, (h, tt)) in
      elim (Bool-cases calls.open_temporary) [
        | inr o ↦ rw o (inr ("failed to open temporary state file for writing", refl, (h, tt)))
        | inl o ↦ elim (Bool-cases calls.good) [
          | inr g ↦
              rw (o, g)
                (inr (
                  "failed to flush temporary state file",
                  refl,
                  (
                    remove_temporary-Same calls.remove tmp before
                        (last_of N parent_path writing opened) e
                        (last_of-Same writing before opened writing_h opened_h),
                    passed_h,
                  ),
                ))
          | inl g ↦ elim (Option-cases calls.rename) [
            | inr (message, r) ↦
                rw (o, g, r)
                  (inr (
                    "failed to replace state file atomically: " <> message,
                    refl,
                    (
                      remove_temporary-Same calls.remove tmp before complete e complete_h,
                      (complete_h, passed_h),
                    ),
                  ))
            | inl r ↦
                rw (o, g, r)
                  (inl (
                    refl,
                    rw ((==_iff path path).1 refl, (==_iff tmp tmp).1 refl),
                    (complete_h, passed_h),
                  ))
          ]
        ]
      ]

  pub open_and_lock_state_file-Same :
      (calls : Locking) (disk : Disk N parent_path)
      → Same disk (open_and_lock_state_file N parent_path calls path disk).1
  unfolding open_and_lock_state_file
  open_and_lock_state_file-Same calls disk = elim (Option-cases calls.open_lock) [
    | inr (error, o) ↦ rw (o, open_and_lock_state_file)
    | inl o ↦ elim (Option-cases calls.flock) [
      | inr (error, f) ↦ rw (o, f, lock-ne path, open_and_lock_state_file)
      | inl f ↦ rw (o, f, lock-ne path, open_and_lock_state_file)
    ]
  ]

module _ (N : Nodes) (parent_path : String → String) (path : String) (state : RuntimeState) where
  save_locked-Replaces :
      (calls : Saving N.Contents) (disk : Disk N parent_path)
      → Replaces N parent_path path
          (N.write (serialize_state N state))
          disk
          (save_locked N parent_path calls path state disk)
  unfolding save_locked
  save_locked-Replaces calls disk =
      let new = N.write (serialize_state N state) in
      let h = open_and_lock_state_file-Same N parent_path path new calls.locking disk in
      let disk' = (open_and_lock_state_file N parent_path calls.locking path disk).1 in
      elim (Option-cases (open_and_lock_state_file N parent_path calls.locking path disk).0) [
        | inl l ↦
            rw (l, save_locked) (write_state-Replaces N parent_path path new calls disk disk' h)
        | inr (error, l) ↦ rw (l, save_locked) (inr (error, refl, (h, tt)))
      ]

  -- Whatever the calls answer, `SaveState` either succeeds, and then the state file has the new
  -- contents at the end and had the old ones at every moment before; or it reports an error, and the
  -- state file has the old contents at every moment and at the end.
  pub save_state-Replaces :
      (calls : Saving N.Contents) (disk : Disk N parent_path)
      → Replaces N parent_path path
          (N.write (serialize_state N state))
          disk
          (save_state N parent_path calls path state disk)
  unfolding save_state
  save_state-Replaces calls disk = elim (Bool-cases (is_empty (parent_path path))) [
    | inl p ↦ rw p (save_locked-Replaces calls disk)
    | inr p ↦ elim (Option-cases calls.create_directories) [
      | inl c ↦ rw (p, c) (save_locked-Replaces calls disk)
      | inr (message, c) ↦
          rw (p, c) (inr ("failed to create state directory: " <> message, refl, (refl, tt)))
    ]
  ]
