-- ===== src/Protection/Matcher.antt =====
-- The matcher of crates/protection-core/src/engine.rs. SHA-256, the Aho-Corasick search and
-- `to_lowercase` are parameters; a `HashMap` is an association list; the size of a file is below 2^64.
use supa_diska_klinah.Base.{
  ℕ, suc, ◌+◌, ◌-◌, Bool, true, false, ◌&&◌, Option, none, some, List, [], ◌∷◌, ◌++◌, Text,
  Text-discrete, length, take, get_elem?, get_or, set, replicate, is_empty, leb, ltb, min, max,
  if◌then◌else◌, same,
}
use supa_diska_klinah.Protection.Hex.{from_hex, to_hex}
use supa_diska_klinah.Protection.Update.{array_of}
use supa_diska_klinah.Protection.Pack.{
  RulePack, Rule, RuleMatch, sha256_match, bytes_match, file_name_match, Severity,
  max_pattern_offset,
}

pub data MatchMethod : Type 0 where
  by_sha256 by_bytes by_file_name : MatchMethod

pub record RuleInfo : Type 0 where
  pub id : Text
  pub name : Text
  pub severity : Severity

pub record PatternMeta : Type 0 where
  pub rule : ℕ
  pub offset_min : ℕ
  pub offset_max : ℕ
  pub max_file_size : Option ℕ

-- The patterns stand for the automaton that is built from them.
pub record CompiledPack : Type 0 where
  pub sequence : ℕ
  pub rules : List RuleInfo
  pub hashes : List (List ℕ × List ℕ)
  pub names : List (Text × List ℕ)
  pub patterns : List (List ℕ)
  pub pattern_meta : List PatternMeta
  pub head_limit : ℕ

pub record RuleHit : Type 0 where
  pub rule_id : Text
  pub rule_name : Text
  pub method : MatchMethod
  pub severity : Severity

pub record FileVerdict : Type 0 where
  pub sha256 : Text
  pub size : ℕ
  pub hits : List RuleHit

-- `map.entry(key).or_default().push(index)`.
unfoldable pub push_entry : List ℕ → ℕ → List (List ℕ × List ℕ) → List (List ℕ × List ℕ)
push_entry key index [] = (key, index ∷ []) ∷ []
push_entry key index ((k, indices) ∷ m) =
    let rest = push_entry key index m in
    if same Text-discrete k key then (k, indices ++ index ∷ []) ∷ m else (k, indices) ∷ rest

-- `map.get(key).into_iter().flatten()`.
unfoldable pub entries_of : List ℕ → List (List ℕ × List ℕ) → List ℕ
entries_of key [] = []
entries_of key ((k, indices) ∷ m) = if same Text-discrete k key then indices else entries_of key m

abbrev pub no_pack : ℕ → CompiledPack
no_pack sequence = record {
  sequence = sequence;
  rules = [];
  hashes = [];
  names = [];
  patterns = [];
  pattern_meta = [];
  head_limit = 0;
}

abbrev pub add_digest : ℕ → Option (List ℕ) → CompiledPack → CompiledPack
add_digest index none c = c
add_digest index (some digest) c = record c { hashes = push_entry digest index c.hashes }

abbrev pub add_pattern : ℕ → ℕ → ℕ → Option ℕ → Option (List ℕ) → CompiledPack → CompiledPack
add_pattern index offset_min offset_max max_file_size none c = c
add_pattern index offset_min offset_max max_file_size (some bytes) c = record c {
  head_limit = max c.head_limit (min offset_max max_pattern_offset + length bytes);
  patterns = c.patterns ++ bytes ∷ [];
  pattern_meta =
      c.pattern_meta
      ++ record {
        rule = index;
        offset_min = offset_min;
        offset_max = offset_max;
        max_file_size = max_file_size;
      }
        ∷ [];
}

-- `self.hit(index, method)`, whose index is that of a rule.
unfoldable pub hit : List RuleInfo → ℕ → MatchMethod → List RuleHit
hit rules index method = elim (get_elem? rules index) [
  | none ↦ []
  | some rule ↦
      record { rule_id = rule.id; rule_name = rule.name; method = method; severity = rule.severity }
      ∷ []
]

unfoldable pub hits_for : List RuleInfo → MatchMethod → List ℕ → List RuleHit
unfolding hit
hits_for rules method [] = []
hits_for rules method (index ∷ indices) = hit rules index method ++ hits_for rules method indices

abbrev pub size_allowed : Option ℕ → ℕ → Bool
size_allowed none size = true
size_allowed (some most) size = leb size most

abbrev pub found_allowed : Option PatternMeta → ℕ → ℕ → Bool
found_allowed none start size = false
found_allowed (some meta) start size =
    (leb meta.offset_min start && leb start meta.offset_max) && size_allowed meta.max_file_size size

abbrev pub found_hit : List RuleInfo → Option PatternMeta → List RuleHit
found_hit rules none = []
found_hit rules (some meta) = hit rules meta.rule by_bytes

-- The loop over what the search has found: pattern and start of each occurrence.
unfoldable pub pattern_hits : CompiledPack → ℕ → List Bool → List (ℕ × ℕ) → List RuleHit
unfolding hit
pattern_hits c size seen [] = []
pattern_hits c size seen ((pattern_index, start) ∷ found) =
    let meta = get_elem? c.pattern_meta pattern_index in
    let skipped = pattern_hits c size seen found in
    let taken = pattern_hits c size (set seen pattern_index true) found in
    if get_or seen pattern_index false
    then skipped
    else if found_allowed meta start size
    then found_hit c.rules meta ++ taken
    else skipped

-- `dedup_by`: an element goes if its rule is that of the last one kept.
unfoldable pub dedup_after : Text → List RuleHit → List RuleHit
dedup_after last [] = []
dedup_after last (h ∷ hs) =
    let kept = dedup_after h.rule_id hs in
    let rest = dedup_after last hs in if same Text-discrete h.rule_id last then rest else h ∷ kept

unfoldable pub dedup : List RuleHit → List RuleHit
unfolding dedup_after
dedup [] = []
dedup (h ∷ hs) = h ∷ dedup_after h.rule_id hs

-- `sha2::Sha256`, `str::to_lowercase` and `find_overlapping_iter`.
pub record MatcherLibrary : Type 1 where
  pub Hasher : Type 0
  pub new_hasher : Hasher
  pub hash_update : Hasher → List ℕ → Hasher
  pub finalize : Hasher → List ℕ
  pub to_lowercase : Text → Text
  pub find_overlapping : List (List ℕ) → List ℕ → List (ℕ × ℕ)

pub record FileMatcher (Hasher : Type 0) : Type 0 where
  pub hasher : Hasher
  pub head : List ℕ
  pub size : ℕ

module _ (lib : MatcherLibrary) where
  open lib use {Hasher, new_hasher, hash_update, finalize, to_lowercase, find_overlapping}

  abbrev pub add_match : ℕ → RuleMatch → CompiledPack → CompiledPack
  add_match index (sha256_match sha256) c = add_digest index (array_of 32 (from_hex sha256)) c
  add_match index (bytes_match pattern_hex offset_min offset_max max_file_size) c =
      add_pattern index offset_min offset_max max_file_size (from_hex pattern_hex) c
  add_match index (file_name_match name) c = record c {
    names = push_entry (to_lowercase name) index c.names;
  }

  unfoldable pub compile_rules : ℕ → List Rule → CompiledPack → CompiledPack
  unfolding push_entry
  compile_rules index [] c = c
  compile_rules index (rule ∷ rules) c =
      let info : RuleInfo = record { id = rule.id; name = rule.name; severity = rule.severity } in
      compile_rules (suc index) rules
        (add_match index rule.matcher (record c { rules = c.rules ++ info ∷ [] }))

  unfoldable pub compile : RulePack → CompiledPack
  unfolding compile_rules
  compile pack = compile_rules 0 pack.rules (no_pack pack.sequence)

  unfoldable pub match_name : CompiledPack → Text → List RuleHit
  unfolding hits_for entries_of
  match_name c file_name =
      hits_for c.rules by_file_name (entries_of (to_lowercase file_name) c.names)

  unfoldable pub match_digest : CompiledPack → List ℕ → List RuleHit
  unfolding hits_for entries_of
  match_digest c digest = hits_for c.rules by_sha256 (entries_of digest c.hashes)

  abbrev pub new_matcher : FileMatcher Hasher
  new_matcher = record { hasher = new_hasher; head = []; size = 0 }

  -- `FileMatcher::update`: with no room, nothing is added to the head.
  unfoldable pub update : CompiledPack → FileMatcher Hasher → List ℕ → FileMatcher Hasher
  update c m chunk =
      let room = c.head_limit - length m.head in
      record {
        hasher = hash_update m.hasher chunk;
        head = if ltb 0 room then m.head ++ take (min (length chunk) room) chunk else m.head;
        size = m.size + length chunk;
      }

  unfoldable pub finish : CompiledPack → FileMatcher Hasher → FileVerdict
  unfolding match_digest pattern_hits dedup
  finish c m =
      let digest = finalize m.hasher in
      let by_pattern =
        if is_empty c.patterns
        then []
        else pattern_hits c m.size (replicate (length c.pattern_meta) false)
            (find_overlapping c.patterns m.head) in
      record {
        sha256 = to_hex digest;
        size = m.size;
        hits = dedup (match_digest c digest ++ by_pattern);
      }
