-- ===== src/Storage/Collecting.antt =====
-- What the collector of large files keeps of a walk.
use mathlib.Core.List.{append_assoc, append-nil}
use mathlib.Core.Path.{subst}
use supa_diska_klinah.Base.{
  ℕ, zero, suc, ◌≡◌, ◌≤◌, refl, sym, ap, ◌∙◌, Bool, true, false, Option, List, [], ◌∷◌, ◌++◌, Text,
  length, take, keep, map, leb, if◌then◌else◌, not, Result, ok, err, bind_ok, arith, Bool-cases,
  inl, inr,
}
use supa_diska_klinah.Storage.Paths.{PathLibrary}
use supa_diska_klinah.Storage.Requests.{FileFilter, validate_filter}
use supa_diska_klinah.Storage.Types.{StorageError, invalid_request, within, max_records}
use supa_diska_klinah.Storage.LargeFiles.{
  WalkControl, continue_walk, stop_walk, WalkEntry, LargeFiles, matches, collected_file, observe,
  new_large_files,
}

take_whole : {A : Type 0} (n : ℕ) (xs ys : List A) → length xs ≡ n → take n (xs ++ ys) ≡ xs
take_whole zero [] ys h = refl
take_whole zero (x ∷ xs) ys h = ground (arith, h)
take_whole (suc n) [] ys h = ground (arith, h)
take_whole (suc n) (x ∷ xs) ys h = ap (λ t. x ∷ t) (take_whole n xs ys (omega (arith, h)))

take_short : {A : Type 0} (n : ℕ) (xs : List A) → length xs ≤ n → take n xs ≡ xs
take_short zero [] h = refl
take_short zero (x ∷ xs) h = ground (arith, h)
take_short (suc n) [] h = refl
take_short (suc n) (x ∷ xs) h = ap (λ t. x ∷ t) (take_short n xs (omega (arith, h)))

length-snoc : {A : Type 0} (xs : List A) (x : A) → length (xs ++ x ∷ []) ≡ suc (length xs)
length-snoc [] x = refl
length-snoc (y ∷ xs) x = ap suc (length-snoc xs x)

module _ (paths : PathLibrary) (SystemTime : Type 0) (since_epoch : SystemTime → Option ℕ)
    (extension_str : paths.PathBuf → Option Text) where
  abbrev Collector : Type 0
  Collector = LargeFiles paths SystemTime since_epoch extension_str

  abbrev pub Walked : Type 0
  Walked = WalkEntry paths SystemTime since_epoch extension_str

  -- The walk hands its entries on until the collector stops it.
  unfoldable pub observe_all : List Walked → Collector → Collector
  observe_all [] state = state
  observe_all (entry ∷ entries) state =
      let (control, state') = observe paths SystemTime since_epoch extension_str entry state in
      elim control [ continue_walk ↦ observe_all entries state' | stop_walk ↦ state' ]

  abbrev pub is_match : FileFilter → Walked → Bool
  is_match filter entry =
      matches paths SystemTime since_epoch extension_str filter entry.0 entry.1.0

  observe-other :
      (entry : Walked) (state : Collector)
      → is_match state.filter entry ≡ false
      → observe paths SystemTime since_epoch extension_str entry state ≡ (continue_walk, state)
  unfolding observe
  observe-other entry state e = rw e refl

  observe-full :
      (entry : Walked) (state : Collector)
      → is_match state.filter entry ≡ true
      → leb state.limit (length state.files) ≡ true
      → observe paths SystemTime since_epoch extension_str entry state ≡ (stop_walk, state)
  unfolding observe
  observe-full entry state e full = rw (e, full) refl

  observe-room :
      (entry : Walked) (state : Collector)
      → is_match state.filter entry ≡ true
      → leb state.limit (length state.files) ≡ false
      → observe paths SystemTime since_epoch extension_str entry state ≡ (
        continue_walk,
        record state {
          files =
              state.files ++ collected_file paths SystemTime since_epoch extension_str entry ∷ [];
        },
      )
  unfolding observe
  observe-room entry state e room = rw (e, room) refl

  abbrev carry_on : List Walked → WalkControl × Collector → Collector
  carry_on entries outcome = elim outcome.0 [
    | continue_walk ↦ observe_all entries outcome.1
    | stop_walk ↦ outcome.1
  ]

  observe_all-next :
      (entry : Walked) (entries : List Walked) (state : Collector)
      (outcome : WalkControl × Collector)
      → observe paths SystemTime since_epoch extension_str entry state ≡ outcome
      → observe_all (entry ∷ entries) state ≡ carry_on entries outcome
  unfolding observe_all
  observe_all-next entry entries state outcome e = ap (carry_on entries) e

  observe_all-take :
      (entries : List Walked) (state : Collector)
      → length state.files ≤ state.limit
      → (observe_all entries state).files
        ≡ take state.limit (
            state.files
            ++ map
                (collected_file paths SystemTime since_epoch extension_str)
                (keep (is_match state.filter) entries))
  unfolding observe_all
  observe_all-take [] state h =
      sym (take_short state.limit state.files h)
      ∙ ap (take state.limit) (sym (append-nil state.files))
  observe_all-take (entry ∷ entries) state h =
      let file = collected_file paths SystemTime since_epoch extension_str entry in
      let rest =
        map (collected_file paths SystemTime since_epoch extension_str)
          (keep (is_match state.filter) entries) in
      elim (Bool-cases (is_match state.filter entry)) [
        | inr e ↦
            rw (observe_all-next entry entries state _ (observe-other entry state e), e)
              (observe_all-take entries state h)
        | inl e ↦ elim (Bool-cases (leb state.limit (length state.files))) [
          | inl full ↦
              rw (observe_all-next entry entries state _ (observe-full entry state e full), e)
                (sym (take_whole state.limit state.files (file ∷ rest) (ground (arith, h, full))))
          | inr room ↦
              let l = length-snoc state.files file in
              rw (observe_all-next entry entries state _ (observe-room entry state e room), e)
                (observe_all-take entries (record state { files = state.files ++ file ∷ [] })
                    (ground (arith, h, room, l))
                  ∙ ap (take state.limit) (append_assoc state.files (file ∷ []) rest))
        ]
      ]

  abbrev new_collector : FileFilter → ℕ → Result StorageError Collector
  new_collector filter limit =
      if not (within 1 max_records limit)
      then err invalid_request
      else ok (record { filter = filter; limit = limit; files = [] })

  new_large_files-fresh :
      (filter : FileFilter) (limit : ℕ) (state : Collector)
      → new_large_files paths SystemTime since_epoch extension_str filter limit ≡ ok state
      → record { filter = filter; limit = limit; files = [] } ≡ state
  unfolding new_large_files
  new_large_files-fresh filter limit state h =
      let (_, (_, made)) =
        bind_ok (validate_filter filter) (λ _. new_collector filter limit) state h in
      ground (arith, made)

  -- If a collector is made for a filter and a limit, then whatever entries the walk reports, it
  -- ends with the records of the first entries that match the filter, in their order, as many as
  -- the limit allows.
  pub observe_all_lem :
      (entries : List Walked) (filter : FileFilter) (limit : ℕ) (state : Collector)
      → new_large_files paths SystemTime since_epoch extension_str filter limit ≡ ok state
      → (observe_all entries state).files
        ≡ take limit (
            map
              (collected_file paths SystemTime since_epoch extension_str)
              (keep (is_match filter) entries))
  observe_all_lem entries filter limit state made =
      let Taken = λ (s : Collector).
        (observe_all entries s).files
        ≡ take limit (
            map (collected_file paths SystemTime since_epoch extension_str)
              (keep (is_match filter) entries)) in
      subst Taken (new_large_files-fresh filter limit state made) (
        observe_all-take entries (record { filter = filter; limit = limit; files = [] })
          (omega arith))
