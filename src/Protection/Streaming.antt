-- ===== src/Protection/Streaming.antt =====
-- Files that are fed to the matcher of crates/protection-core/src/engine.rs in chunks, and the memory
-- that this takes.
use mathlib.Core.List.{append_assoc, append-nil}
use supa_diska_klinah.Base.{
  ℕ, zero, suc, ◌+◌, ◌-◌, ◌≤◌, ◌≡◌, refl, sym, ap, ◌∙◌, Option, none, some, List, [], ◌∷◌, ◌++◌,
  arith, Text, length, take, ltb, min, if◌then◌else◌, All, ok,
}
use supa_diska_klinah.Protection.Hex.{from_hex}
use supa_diska_klinah.Protection.Update.{array_of}
use supa_diska_klinah.Protection.Pack.{
  RulePack, Rule, RuleMatch, sha256_match, bytes_match, file_name_match, max_pattern_offset,
  max_pattern_bytes, validate_pack,
}
use supa_diska_klinah.Protection.PackLaws.{RuleIsValid, MatchIsValid, validate_pack_lem}
use supa_diska_klinah.Protection.Matcher.{
  CompiledPack, MatcherLibrary, FileMatcher, new_matcher, update, finish, compile, compile_rules,
  add_match, add_digest, no_pack,
}

abbrev pub concat : List (List ℕ) → List ℕ
concat [] = []
concat (chunk ∷ chunks) = chunk ++ concat chunks

length-append : (xs ys : List ℕ) → length (xs ++ ys) ≡ length xs + length ys
length-append [] ys = ground arith
length-append (x ∷ xs) ys = ground (arith, length-append xs ys)

length-take : (n : ℕ) (xs : List ℕ) → length (take n xs) ≡ min n (length xs)
length-take zero xs = ground arith
length-take (suc n) [] = ground arith
length-take (suc n) (x ∷ xs) = ground (arith, length-take n xs)

take-zero_room : (m : ℕ) (ys : List ℕ) → take (min (length ys) m) ys ≡ take m ys
take-zero_room zero ys = ground arith
take-zero_room (suc m) [] = ground arith
take-zero_room (suc m) (y ∷ ys) = ground (arith, take-zero_room m ys)

take-append :
    (n : ℕ) (xs ys : List ℕ) → take n (xs ++ ys) ≡ take n xs ++ take (n - length (take n xs)) ys
take-append zero xs ys = ground arith
take-append (suc n) [] ys = ground arith
take-append (suc n) (x ∷ xs) ys = ground (arith, take-append n xs ys)

-- The head after a chunk.
head_lem :
    (n : ℕ) (xs ys : List ℕ)
    → (if ltb 0 (n - length (take n xs))
        then take n xs ++ take (min (length ys) (n - length (take n xs))) ys
        else take n xs)
      ≡ take n (xs ++ ys)
head_lem n xs ys =
    ground (
      arith,
      take-append n xs ys,
      take-zero_room (n - length (take n xs)) ys,
      append-nil (take n xs),
    )

module _ (lib : MatcherLibrary) where
  abbrev pub feed : CompiledPack → FileMatcher lib.Hasher → List (List ℕ) → FileMatcher lib.Hasher
  feed c m [] = m
  feed c m (chunk ∷ chunks) = feed c (update lib c m chunk) chunks

  -- The state that a file's bytes stand for, whatever chunks they came in.
  abbrev pub whole : CompiledPack → List ℕ → FileMatcher lib.Hasher
  whole c bytes = record {
    hasher = lib.hash_update lib.new_hasher bytes;
    head = take c.head_limit bytes;
    size = length bytes;
  }

module _ (lib : MatcherLibrary)
    (joins : (h : lib.Hasher) (a b : List ℕ)
      → lib.hash_update (lib.hash_update h a) b ≡ lib.hash_update h (a ++ b))
    (skips : (h : lib.Hasher) → lib.hash_update h [] ≡ h) where
  update-whole :
      (c : CompiledPack) (before chunk : List ℕ)
      → update lib c (whole lib c before) chunk ≡ whole lib c (before ++ chunk)
  unfolding update
  update-whole c before chunk = rw (joins, head_lem, length-append) refl

  feed-whole :
      (c : CompiledPack) (before : List ℕ) (chunks : List (List ℕ))
      → feed lib c (whole lib c before) chunks ≡ whole lib c (before ++ concat chunks)
  feed-whole c before [] = ap (whole lib c) (sym (append-nil before))
  feed-whole c before (chunk ∷ chunks) =
      ap (λ m. feed lib c m chunks) (update-whole c before chunk)
      ∙ feed-whole c (before ++ chunk) chunks
      ∙ ap (whole lib c) (append_assoc before chunk (concat chunks))

  take-nil : (n : ℕ) → take {A = ℕ} n [] ≡ []
  take-nil zero = refl
  take-nil (suc n) = refl

  new-whole : (c : CompiledPack) → new_matcher lib ≡ whole lib c []
  new-whole c = rw (skips, take-nil) refl

  -- Where hashing one text after another is hashing them joined, and hashing nothing changes
  -- nothing, a file that is fed to the matcher in chunks has the verdict of the state that holds
  -- the hash of all its bytes, its first bytes up to the head limit and its length, whatever the
  -- chunks.
  pub feed_lem :
      (c : CompiledPack) (chunks : List (List ℕ))
      → finish lib c (feed lib c (new_matcher lib) chunks)
        ≡ finish lib c (whole lib c (concat chunks))
  feed_lem c chunks =
      ap (finish lib c) (ap (λ m. feed lib c m chunks) (new-whole c) ∙ feed-whole c [] chunks)

abbrev pub most_head : ℕ
most_head = max_pattern_offset + max_pattern_bytes

module _ (lib : MatcherLibrary) where
  add_match-limit :
      (index : ℕ) (m : RuleMatch) (c : CompiledPack)
      → MatchIsValid m
      → c.head_limit ≤ most_head
      → (add_match lib index m c).head_limit ≤ most_head
  add_match-limit index (sha256_match sha256) c v h = digest (array_of 32 (from_hex sha256))
    where
      digest : (o : Option (List ℕ)) → (add_digest index o c).head_limit ≤ most_head
      digest none = h
      digest (some d) = h
  add_match-limit index (bytes_match pattern_hex offset_min offset_max max_file_size) c
        (bytes, p, low, high, ordered, near, _) h =
      rw p (ground arith)
  add_match-limit index (file_name_match name) c v h = h

  compile_rules-limit :
      (index : ℕ) (rules : List Rule) (c : CompiledPack)
      → All RuleIsValid rules
      → c.head_limit ≤ most_head
      → (compile_rules lib index rules c).head_limit ≤ most_head
  unfolding compile_rules
  compile_rules-limit index [] c v h = h
  compile_rules-limit index (rule ∷ rules) c v h =
      compile_rules-limit (suc index) rules _ v.1
        (add_match-limit index rule.matcher _ v.0.match_is_valid h)

  feed-limit :
      (c : CompiledPack) (m : FileMatcher lib.Hasher) (chunks : List (List ℕ))
      → length m.head ≤ c.head_limit
      → length (feed lib c m chunks).head ≤ c.head_limit
  feed-limit c m [] h = h
  feed-limit c m (chunk ∷ chunks) h = feed-limit c (update lib c m chunk) chunks (
      unfold update in
      ground (
        arith,
        length-append m.head (take (min (length chunk) (c.head_limit - length m.head)) chunk),
        length-take (min (length chunk) (c.head_limit - length m.head)) chunk,
      ))

  -- For a pack that validate accepts, the head that the compiled matcher keeps of a file has at
  -- most 1 MiB and 256 bytes, whatever chunks it is fed.
  pub compile-bound :
      (pack : RulePack) (app_version : Text) (chunks : List (List ℕ))
      → validate_pack pack app_version ≡ ok tt
      → length (feed lib (compile lib pack) (new_matcher lib) chunks).head
        ≤ max_pattern_offset + max_pattern_bytes
  unfolding compile
  compile-bound pack app_version chunks h =
      let v = (validate_pack_lem pack app_version).0 h in
      let limit =
        compile_rules-limit 0 pack.rules (no_pack pack.sequence) v.rules_are_valid (ground arith) in
      let fits = feed-limit (compile lib pack) (new_matcher lib) chunks (ground arith) in
      ground arith
