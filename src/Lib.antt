-- ===== src/Lib.antt =====
-- pScheduler: the limits that a site sets on the measurements that others ask of it, the server that
-- takes them, and the batches of measurements that a user asks for.
--
-- A limit file describes who asks (identifiers and classifiers), what may be measured (limits) and
-- how limits apply to classes of users (applications). A rewriter may change a task and a prioritizer
-- give it a priority. `LimitProcessor.process` passes a proposed task with the requester's hints
-- through these stages and says whether it may run. `BatchProcessor` makes the tasks of a batch, posts
-- them to the servers that lead them, and collects their results. The API server takes tasks, puts
-- them before the limits, spreads them to their participants, and keeps their runs. All paths below
-- stand under python-pscheduler/pscheduler/pscheduler/ but those of the API server.
--
-- - Common: tests, lists, texts and exceptions as values (`Result`). Json: JSON values whose numbers
--   are integers, and the look-ups that the code makes in them, with their exceptions. World: what
--   the code takes from elsewhere.
-- - PsJson: psjson.py, with its child Rfc7464 for the streams of documents.
-- - LimitProcessor: limitprocessor/limitprocessor.py, `process`; Hints and Priorities are parts of
--   it, Denial and Rewriting hold the theorems. Its child Load is the constructor, which reads a limit
--   file.
-- - Identifier, IdentifierSet: limitprocessor/identifierset.py and identifier/*.py. ClassifierSet:
--   limitprocessor/classifierset.py. Rewriter and Prioritizer: the files of these names there.
--   CidrListUrl: limitprocessor/identifier/ipcidrlisturl.py, with Lines for the text of a list,
--   Threads for the steps of the threads that evaluate at once, and Answers for what a server's answer
--   means.
-- - Limit: limitprocessor/limit/*.py, one module per class and one data type of them all. LimitSet:
--   limitprocessor/limitset.py, with MergeDicts for its `merge_dicts`. ApplicationSet:
--   limitprocessor/applicationset.py, with Groups and Verdicts for its loops, Known for its
--   constructor and Silence for an exception.
-- - SpecLimits: the helpers of limits.py with which test plug-ins check one field of a spec, on
--   DurationRange (durationrange.py), EnumMatcher (enummatcher.py) and StringMatcher; its child
--   Endpoints checks addresses, on IpCidrMatcher (ipcidrmatcher.py) and ipaddr.py. RetryPolicy:
--   retry.py. ThreadSafeSet: the set and the holds of threadsafe.py, whose threads take steps in any
--   order. ExpiringSet: expiringset.py, with each reading of the clock as an argument.
-- - BatchProcessor: batchprocessor/batchprocessor.py. Transform applies a job's scripts, Tasks and
--   Results say what jobs are made into and what comes of them, and RunTask is the run of one task: a
--   script of requests, waits and readings of the clock that goes on by what is answered. Api: the
--   URLs of api.py, with Kinds for those of tasks and runs and Pings for the pings of hosts. SafeRun:
--   saferun.py, one process after the other.
-- - SiNumber: sinumber.py, with Digits and Decimals for what is written and read back. NumericRange:
--   numericrange.py. SpecLimits.Numeric: the checks of limits.py that use them. HighInteger: numeric.py.
-- - PsUrl: psurl.py, whose default headers are a state.
-- - StringMatcher: stringmatcher.py. JqFilter: jqfilter.py. Proposal: the dicts that pass between the
--   parts.
-- - ApiServer: the handlers of pscheduler-server/pscheduler-server/api-server/pschedulerapiserver/
--   from the repository's root. Script is the form of a handler: what it asks of the database, of
--   plug-ins and of other servers, and how it goes on by the answer; response.py is a part of it.
--   Requests: args.py, access.py and util.py. LimitProc: limitproc.py, whose variables are a state.
--   Tasks: tasks.py, with Validate, Tools, Create and Uuid for the stages of a task, and PickTool for
--   its `pick_tool`. Runs: runs.py, with Limits for the posting of a run, Change, Wait, Lists and
--   Outcome for the requests.
-- - Samples: concrete runs.
--
-- An object that is built once is a value; a method that reads it is a function of it. Python's dicts
-- keep the order of insertion, and are association lists. Each raised exception is an `err` with its
-- text; the texts of a TypeError are not exact.
--
-- Parameters, as functions of `World`: the validation of JSON against a schema, pyjq and the regular
-- expression by which scripts are groomed, plug-ins, HTTP, the text and the parser of JSON, `str` of a
-- value that is no text, dates and durations with the calendar, regular expressions, IP networks, and
-- the classes of identifiers that ask the network. A `World` is asked the same question with the same
-- answer each time. `Net` and `Hosts` are what netaddr, the resolver, IDNA and urllib say of
-- addresses and hosts; a `Transport` is what PycURL makes of a request, and a `Comparison` what `>` says
-- of floats; the radix tree of a list of blocks is two functions of its settings.
--
-- A `Host` is what Flask, urllib, uuid, crontab and the interfaces of the server say. A statement of
-- SQL is a constructor of `Query` with its arguments, of which a script awaits the answer.
--
-- Every loop is structural recursion, so nothing runs out of fuel but two functions: `decimal`, which
-- prints a number, counts down from a number that is larger than the number of digits, and `read_all`,
-- the loop over a stream, takes the number of its calls, for which one more than there are characters
-- is always enough.
--
-- Not modelled: the texts of SQL, the connection to the database and the pages of the server but for
-- those of tasks and runs; headers and pretty printing; `number_as_si`, which formats floats; the
-- resolving of a name in `ip_addr_version`; the debugging messages of a batch, but for the key that one of them reads; how
-- the tasks of a parallel job interleave; what pickles and logs; the keys `inverted` of a
-- check's result and `description` of a clone, which nothing reads; a debugging `print` of
-- limit/runschedule.py; letters outside ASCII in `lower`; numbers with a fraction, but for
-- what sinumber.py reads; a creator or a
-- destroyer of an ExpiringSet that raises an exception.
pub mod Common
pub mod Json
pub mod JqFilter
pub mod MergeDicts
pub mod World
pub mod SafeRun
pub mod SiNumber
pub mod PsUrl
pub mod HighInteger
pub mod IpCidrMatcher
pub mod CidrListUrl
pub mod Api
pub mod BatchProcessor
pub mod PsJson
pub mod Proposal
pub mod Limit
pub mod LimitSet
pub mod StringMatcher
pub mod Identifier
pub mod IdentifierSet
pub mod ClassifierSet
pub mod ApplicationSet
pub mod RetryPolicy
pub mod ExpiringSet
pub mod ThreadSafeSet
pub mod DurationRange
pub mod EnumMatcher
pub mod SpecLimits
pub mod Rewriter
pub mod NumericRange
pub mod Prioritizer
pub mod LimitProcessor
pub mod ApiServer
mod Samples
