-- ===== src/PullPolicy.antt =====
-- web/src/lib/pull-policy-shared.ts: the pull policy of an organization and of a repository, and
-- what it blocks. A sentence is the list of the counts that it quotes.
pub mod Blocking
use chicoree.Prelude.{
  ℕ, ◌+◌, Bool, true, false, Option, none, some, List, [], ◌∷◌, ◌++◌, ltb, ◌&&◌, if◌then◌else◌,
  get_or,
}

pub data Level : Type 0 where
  critical high medium low : Level

abbrev pub levels : List Level
levels = critical ∷ high ∷ medium ∷ low ∷ []

pub record Policy : Type 0 where
  pub level : Option Level
  pub unrated : Bool

pub record OrgPolicyRow : Type 0 where
  pub block_pulls_at : Option Level
  pub block_unrated : Bool

pub data RepoLevel : Type 0 where
  off : RepoLevel
  at : Level → RepoLevel

pub record RepoPolicyRow : Type 0 where
  pub block_pulls_at : Option RepoLevel
  pub block_unrated : Option Bool

-- The keys of `SeveritySummary` (web/src/components/severity.tsx).
pub data Severity : Type 0 where
  critical high medium low unknown : Severity

-- A summary gives each severity its count; an absent key counts as 0.
abbrev pub SeveritySummary : Type 0
SeveritySummary = Severity → ℕ

unfoldable pub covers : Level → List Severity
covers critical = Severity.critical ∷ []
covers high = Severity.critical ∷ Severity.high ∷ []
covers medium = Severity.critical ∷ Severity.high ∷ Severity.medium ∷ []
covers low = Severity.critical ∷ Severity.high ∷ Severity.medium ∷ Severity.low ∷ []

unfoldable pub org_policy : Option OrgPolicyRow → Policy
org_policy none = record { level = none; unrated = false }
org_policy (some org) = record { level = org.block_pulls_at; unrated = org.block_unrated }

-- `repo.blockUnrated ?? org?.blockUnrated ?? false`
or_org : Option Bool → Option OrgPolicyRow → Bool
or_org (some b) org = b
or_org none (some org) = org.block_unrated
or_org none none = false

override : Option RepoLevel → Option OrgPolicyRow → Option Bool → Policy
unfolding or_org org_policy
override (some off) org unrated = record { level = none; unrated = false }
override (some (at level)) org unrated = record { level = some level; unrated = or_org unrated org }
override none org unrated = org_policy org

unfoldable pub effective_policy : Option OrgPolicyRow → RepoPolicyRow → Policy
unfolding override
effective_policy org repo = override repo.block_pulls_at org repo.block_unrated

-- `repo.requireSignature ?? org?.requireSignature ?? false`
unfoldable pub effective_signature_policy : Option (Option Bool) → Option Bool → Bool
effective_signature_policy org (some b) = b
effective_signature_policy none none = false
effective_signature_policy (some org) none = get_or org false

-- The parts of the sentence: a severity and its count.
counted : SeveritySummary → List Severity → List (Severity × ℕ)
counted summary [] = []
counted summary (key ∷ keys) =
    let rest = counted summary keys in
    if ltb 0 (summary key) then (key, summary key) ∷ rest else rest

violation_parts : SeveritySummary → Level → Bool → List (Severity × ℕ)
unfolding counted covers
violation_parts summary level unrated =
    counted summary (covers level)
    ++ (if unrated && ltb 0 (summary Severity.unknown)
        then (Severity.unknown, summary Severity.unknown) ∷ []
        else [])

pub record Violation : Type 0 where
  pub parts : List (Severity × ℕ)
  pub policy : Policy

unless_empty : List (Severity × ℕ) → Policy → Option Violation
unless_empty [] policy = none
unless_empty (p ∷ ps) policy = some (record { parts = p ∷ ps; policy = policy })

violation_at : Option Level → SeveritySummary → Policy → Option Violation
unfolding violation_parts unless_empty
violation_at none summary policy = none
violation_at (some level) summary policy =
    unless_empty (violation_parts summary level policy.unrated) policy

-- Why a scanned image violates the policy, `none` when it passes or was not scanned.
unfoldable pub violation : Option SeveritySummary → Policy → Option Violation
unfolding violation_at
violation none policy = none
violation (some summary) policy = violation_at policy.level summary policy
