-- ===== src/Lib.antt =====
-- Chicoree, a container registry with a web application: a verification library of the decision
-- logic in web/src/lib. The parts, and the files that model them:
--
-- - Prelude: text (a JavaScript string is the list of its code units), arrays (lists), the stable
--   sort behind `Array.prototype.sort`, tests on numbers.
-- - TagRules (lib/tag-rules-shared.ts): `matchTagGlob` as rounds over the rests of the pattern and of
--   the name, on fuel (length of the name + 2) * (length of the pattern + 2) + 2, which
--   TagRules/Rounds proves to be enough; `tagFlags`, pattern validation.
-- - Retention (lib/retention-shared.ts): `planRetention`, its loops over tags and manifests as
--   recursions that append to the four lists of the plan. It calls TagRules. The host's order of
--   names (`localeCompare`) is a parameter. A reason is the data of its sentence.
-- - Roles (lib/org-roles.ts, lib/repo-access-shared.ts), TokenPolicy (lib/token-policy-shared.ts),
--   Proxy (lib/proxy-shared.ts): the rules that Access (lib/access.ts, lib/repo-access.ts) combines.
--   Database holds the tables that Access reads as lists of rows; a query by equality is the first
--   row that fits. The URL parser, `Number` and the parser of dates are parameters;
--   a time past the greatest one of a Date stands for the Invalid Date.
-- - Teams (lib/repo-access.ts): the functions that change the rows of teams and grants that Access
--   reads; the audit log they write is left out.
-- - Pagination (lib/paginate-shared.ts), PullPolicy (lib/pull-policy-shared.ts).
-- - Quota (lib/quota-enforce-shared.ts): `planPruneToFit` as a function on the planner's variables.
--   `removeManifest` calls itself on referrers and on children; it runs on fuel for the depth of
--   that, (n + 1) * (n + 1) for n manifests, which Quota/Pruning/Termination proves to be enough
--   where a rank puts each manifest below its subject, which hashes allow. Quota/Pruning/Loops holds the induction over the loops.
-- - LoginThrottle (lib/login-throttle.ts): the rows of `login_attempts` and the calls that change
--   them. SignUp (lib/access-shared.ts, lib/signup-policy.ts): the table of invitations, and the
--   policy that answers with the denial it throws.
-- - RateLimit (lib/api/rate-limit.ts, lib/rate-limit-shared.ts): the rows of
--   `rate_limit_counters`, and the syntax of limits. `digits` prints a number on fuel of one more
--   than the number, which has fewer digits; what JavaScript prints of a number above
--   MAX_SAFE_INTEGER is a parameter.
-- - Scans (lib/scan.ts, db/registry-schema.ts): the rows that say how the scan of an image
--   stands. ScanTasks (lib/scan-tasks.ts, db/scanning-schema.ts): the queue of scans for
--   workers, its rows in ScanTasks/Queue, claims here and reports and the tick of the
--   scheduler in ScanTasks/Reports. What the registry holds and what the scanner answers are
--   parameters. `claimScanTask` calls itself when a task names nothing to scan; the model has
--   fuel for one call more than there are rows, since each such call ends one, and
--   ScanTasks/Claiming proves that it always answers. ScanTasks/Moves names the changes of
--   rows that the calls consist of, ScanTasks/Leases the steps of the queue,
--   ScanTasks/Refinement the specification of one task.
-- - Compare (lib/compare-shared.ts): two images side by side. The loop of `diffLayers` runs on fuel
--   for one round more than there are layers, of which each round passes one. The order of names and
--   `JSON.stringify` are parameters.
-- - Signatures (lib/signatures-shared.ts): artifacts by their descriptors. JSON that is read for
--   summaries is not modelled.
-- - Webhooks (lib/webhooks.ts): a delivery as a function on the rows of hooks, deliveries and notices.
--   The receiver is a function from the request and the number of the attempt to an answer; the
--   waiting between attempts and the time they take are left out. The log is a list with the newest
--   delivery first. Webhooks/Rows has the rows and what a delivery is made of.
-- - ImagePaths (lib/library-shared.ts): the path of an image with and without its organization, and
--   the reading of it, on which the registry's token service relies.
-- - Scheduler (lib/scheduler.ts, lib/jobs.ts): one pass over the schedules that are due, and the rows
--   of `job_runs` that it makes. The parser of cron expressions, the jobs and the ids of new rows are
--   parameters. Scheduler/Pass is about the schedules after it, Scheduler/Single about the runs.
-- - TagAdmin (lib/tag-admin.ts, lib/mirror.ts): `retag` and `deleteTag` on the tags of a repository.
--   The registry is a record of functions that answer a request with a status and the tags after
--   it. TagAdmin/Newest is `pickNewest`, for versions below 2^53.
-- - Tests: small inputs, and the theorems at concrete inputs.
--
-- Times are natural numbers of milliseconds, so dates before 1970 are left out; counts and days are
-- natural numbers. `trim` knows the white space of the language; `toLowerCase` is modelled on
-- ASCII. Reading the database, HTTP and the file system are not modelled.
pub mod Prelude
pub mod TagRules
pub mod Retention
pub mod Roles
pub mod TokenPolicy
pub mod Database
pub mod Proxy
pub mod Access
pub mod Teams
pub mod Pagination
pub mod PullPolicy
pub mod Quota
pub mod LoginThrottle
pub mod SignUp
pub mod RateLimit
pub mod Scans
pub mod ScanTasks
pub mod Compare
pub mod Signatures
pub mod Webhooks
pub mod Scheduler
pub mod ImagePaths
pub mod TagAdmin
pub mod Tests
