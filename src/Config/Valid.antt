-- ===== src/Config/Valid.antt =====
-- config.rs: what a validated `[context]` section guarantees.
use kitaebot.Common.{
  ◌≤◌, ◌<◌, ◌≡◌, ◌↔◌, ok, err, Result, arith, Bool, true, false, Text, List, [], ◌∷◌, All, refl,
  ◌>>◌,
}
use kitaebot.Config.{
  LcmConfig, ContextConfig, validate, validate_lcm, refuse_first, lcm_checks, context_checks,
}

pub record ValidLcm (c : LcmConfig) : Type 0 where
  pub tail : 0 < c.fresh_tail_count
  pub budget : 0 < c.leaf_chunk_tokens
  pub fanout : 2 ≤ c.min_condensed_fanout
  pub soft : 0 < c.soft_budget_percent
  pub order : c.soft_budget_percent < c.hard_budget_percent
  pub hard : c.hard_budget_percent ≤ 100
  pub files : 0 < c.large_file_threshold
  pub excerpts : 0 < c.large_file_summary_tokens

pub record ValidContext (c : ContextConfig) : Type 0 where
  pub window : 0 < c.max_tokens
  pub percent : 0 < c.budget_percent
  pub whole : c.budget_percent ≤ 100
  pub output : 0 < c.tool_output_tokens
  pub lcm : ValidLcm c.lcm

Passed : Bool × Text → Type 0
Passed (bad, message) = bad ≡ false

refuse_first-ok : (cs : List (Bool × Text)) → refuse_first cs ≡ ok tt → All Passed cs
unfolding refuse_first Passed
refuse_first-ok [] h = tt
refuse_first-ok ((true, m) ∷ cs) h = cc
refuse_first-ok ((false, m) ∷ cs) h = (refl, refuse_first-ok cs h)

refuse_first-Passed : (cs : List (Bool × Text)) → All Passed cs → refuse_first cs ≡ ok tt
unfolding refuse_first Passed
refuse_first-Passed [] h = refl
refuse_first-Passed ((b, m) ∷ cs) (p, h) = rw p (refuse_first-Passed cs h)

lcm_Valid : (c : LcmConfig) → All Passed (lcm_checks c) → ValidLcm c
unfolding lcm_checks Passed
lcm_Valid c (a, (b, (d, (e, (f, (g, (h, (i, _)))))))) = record {
  tail = ground arith;
  budget = ground arith;
  fanout = ground arith;
  soft = ground arith;
  order = ground arith;
  hard = ground arith;
  files = ground arith;
  excerpts = ground arith;
}

Valid_lcm : (c : LcmConfig) → ValidLcm c → All Passed (lcm_checks c)
unfolding lcm_checks Passed
Valid_lcm c v =
    let a = v.tail in
    let b = v.budget in
    let d = v.fanout in
    let e = v.soft in
    let f = v.order in
    let g = v.hard in
    let h = v.files in
    let i = v.excerpts in
    (
      ground arith,
      (
        ground arith,
        (
          ground arith,
          (ground arith, (ground arith, (ground arith, (ground arith, (ground arith, tt))))),
        ),
      ),
    )

pub validate_lcm_iff : (c : LcmConfig) → (validate_lcm c ≡ ok tt) ↔ ValidLcm c
unfolding validate_lcm
validate_lcm_iff c = (
  λ h. lcm_Valid c (refuse_first-ok (lcm_checks c) h),
  λ v. refuse_first-Passed (lcm_checks c) (Valid_lcm c v),
)

context_Valid :
    (c : ContextConfig) → All Passed (context_checks c) → ValidLcm c.lcm → ValidContext c
unfolding context_checks Passed
context_Valid c (a, (b, (d, _))) v = record {
  window = ground arith;
  percent = ground arith;
  whole = ground arith;
  output = ground arith;
  lcm = v;
}

Valid_context : (c : ContextConfig) → ValidContext c → All Passed (context_checks c)
unfolding context_checks Passed
Valid_context c v =
    let a = v.window in
    let b = v.percent in
    let d = v.whole in let e = v.output in (ground arith, (ground arith, (ground arith, tt)))

then-ok : (r k : Result Text (Unit {0})) → (r >> k) ≡ ok tt → (r ≡ ok tt) × (k ≡ ok tt)
then-ok (ok _) k h = (refl, h)
then-ok (err m) k h = cc

-- A `[context]` section is accepted exactly when every one of its fields is in its range and the
-- soft budget is below the hard one.
pub validate_iff : (c : ContextConfig) → (validate c ≡ ok tt) ↔ ValidContext c
unfolding validate
validate_iff c = (
  λ h.
      let (own, nested) = then-ok (refuse_first (context_checks c)) (validate_lcm c.lcm) h in
      context_Valid c (refuse_first-ok (context_checks c) own) ((validate_lcm_iff c.lcm).0 nested),
  λ v.
      rw (refuse_first-Passed (context_checks c) (Valid_context c v))
        ((validate_lcm_iff c.lcm).1 v.lcm),
)
