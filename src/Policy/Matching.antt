-- ===== src/Policy/Matching.antt =====
-- When a policy applies to a request (src/policy/engine.ts: subjectMatches, resourceMatches,
-- conditionsSatisfied).
use securestore.Common.{
  ℕ, ◌/◌, ◌%◌, String, Option, none, some, List, [], ◌∷◌, Bool, true, false, not, ◌&&◌, ◌||◌, leb,
  ltb, nat_beq, if◌then◌else◌, Eq, nat_eq, string_eq, includes, any,
}
use securestore.Policy.Types.{
  Risk, low, standard, elevated, high, AuthStrength, weak, strong, mfa, PolicySubjectMatch,
  PolicyResourceMatch, PolicyConditions, PolicySubject, PolicyResource, PolicyRequestContext,
}

abbrev pub risk_rank : Risk → ℕ
risk_rank low = 0
risk_rank standard = 1
risk_rank elevated = 2
risk_rank high = 3

abbrev pub auth_rank : AuthStrength → ℕ
auth_rank weak = 0
auth_rank strong = 1
auth_rank mfa = 2

-- `xs?.length && !xs.includes(x)`: a list that is there and not empty leaves `x` out.
abbrev pub leaves_out {ℓ} : {A : Type ℓ} ⦃e : Eq A⦄ → Option (List A) → A → Bool
leaves_out none x = false
leaves_out (some []) x = false
leaves_out (some (y ∷ ys)) x = not (includes (y ∷ ys) x)

-- `ids?.length && (!id || !ids.includes(id))`
abbrev pub leaves_out_owner : Option (List ℕ) → Option ℕ → Bool
leaves_out_owner none id = false
leaves_out_owner (some []) id = false
leaves_out_owner (some (y ∷ ys)) none = true
leaves_out_owner (some (y ∷ ys)) (some id) = not (includes (y ∷ ys) id)

-- `tags?.length && !tags.some((t) => resource.tags.includes(t))`
abbrev pub shares_no_tag : Option (List String) → List String → Bool
shares_no_tag none tags = false
shares_no_tag (some []) tags = false
shares_no_tag (some (t ∷ ts)) tags = not (any (λ x. includes tags x) (t ∷ ts))

abbrev risk_above : Option Risk → Risk → Bool
risk_above none r = false
risk_above (some most) r = ltb (risk_rank most) (risk_rank r)

unfoldable pub subject_matches : PolicySubjectMatch → PolicySubject → Bool
subject_matches s subject =
    if leaves_out s.agent_ids subject.agent_id
    then false
    else if leaves_out s.agent_types subject.agent_type
    then false
    else if risk_above s.risk_max subject.risk_classification
    then false
    else if leaves_out_owner s.owner_user_ids subject.owner_user_id
    then false
    else true

unfoldable pub resource_matches : PolicyResourceMatch → PolicyResource → Bool
resource_matches r resource =
    if leaves_out r.providers resource.provider
    then false
    else if leaves_out r.credential_types resource.credential_type
    then false
    else if leaves_out r.environments resource.environment
    then false
    else if leaves_out r.owner_scopes resource.owner_scope
    then false
    else if leaves_out r.sensitivities resource.sensitivity
    then false
    else if shares_no_tag r.tags resource.tags
    then false
    else true

-- Date.getUTCHours
unfoldable pub utc_hours : ℕ → ℕ
utc_hours ms = ms / 3_600_000 % 24

unfoldable pub in_window : ℕ → ℕ → ℕ → Bool
in_window start end hour =
    if leb start end then leb start hour && ltb hour end else leb start hour || ltb hour end

abbrev outside_window : Option ℕ → Option ℕ → ℕ → Bool
outside_window (some start) (some end) hour = not (in_window start end hour)
outside_window _ _ hour = false

-- A missing strength counts as -1, below every rank.
abbrev too_weak : Option AuthStrength → Option AuthStrength → Bool
too_weak none have = false
too_weak (some least) none = true
too_weak (some least) (some have) = ltb (auth_rank have) (auth_rank least)

-- cidr.split("/")[0]
unfoldable pub before_slash : List ℕ → List ℕ
before_slash [] = []
before_slash (c ∷ cs) = let rest = before_slash cs in if nat_beq c b'/' then [] else c ∷ rest

-- One or more zeros up to the end.
unfoldable pub only_zeros : List ℕ → Bool
only_zeros [] = false
only_zeros (c ∷ []) = nat_beq c b'0'
only_zeros (c ∷ cs) = let rest = only_zeros cs in nat_beq c b'0' && rest

-- .replace(/\.0+$/, ""): the leftmost dot that only zeros follow
unfoldable pub strip_zeros : List ℕ → List ℕ
unfolding only_zeros
strip_zeros [] = []
strip_zeros (c ∷ cs) =
    let rest = strip_zeros cs in if nat_beq c b'.' && only_zeros cs then [] else c ∷ rest

-- text.startsWith(prefix)
unfoldable pub starts_with : List ℕ → List ℕ → Bool
starts_with text [] = true
starts_with [] (c ∷ cs) = false
starts_with (x ∷ text) (c ∷ cs) = let rest = starts_with text cs in nat_beq x c && rest

unfoldable pub cidr_matches : List ℕ → List ℕ → Bool
unfolding before_slash strip_zeros starts_with
cidr_matches network cidr = starts_with network (strip_zeros (before_slash cidr))

abbrev outside_networks : Option (List (List ℕ)) → Option (List ℕ) → Bool
outside_networks none network = false
outside_networks (some []) network = false
outside_networks (some (c ∷ cs)) none = false
outside_networks (some (c ∷ cs)) (some []) = false
outside_networks (some (c ∷ cs)) (some (x ∷ xs)) = not (any (cidr_matches (x ∷ xs)) (c ∷ cs))

unfoldable pub conditions_satisfied : PolicyConditions → PolicyRequestContext → Bool
unfolding in_window utc_hours cidr_matches
conditions_satisfied c ctx =
    if outside_window c.time_window_start_hour_utc c.time_window_end_hour_utc
      (utc_hours ctx.now_utc)
    then false
    else if too_weak c.min_auth_strength ctx.auth_strength
    then false
    else if outside_networks c.network_cidrs ctx.source_network
    then false
    else true
