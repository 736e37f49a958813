-- ===== src/Lib.antt =====
-- OCR-D core (src/ of the repository: the Python packages ocrd, ocrd_models, ocrd_network, ocrd_utils,
-- ocrd_validators): the Processing Server, the METS file of a workspace, the input files of a
-- processor, the validation of PAGE-XML files, and the backups of a workspace.
--
-- The Processing Server takes requests to run an OCR-D processor on pages of a workspace, and
-- decides whether a request is sent to a network agent (a processing worker over RabbitMQ, or a
-- processor server over HTTP) or waits in a cache, until the results of other jobs come in. The
-- files follow the Python modules.
--
-- Common: names of the libraries, and the shared types and lemmas. Common/Tests holds Boolean
-- tests and the interface of equality (Eq); Common/Lists lists; Common/Texts texts, as lists of
-- code points; Common/Json JSON values; Common/Exec exceptions and statements that change a
-- state and may raise; Common/Dict Python's dict; Common/Int Python's int; Common/Sort
-- Python's sorted.
-- Utils/Strings: generate_range of src/ocrd_utils/str.py; its theorem stands in
-- Utils/Strings/Range. Utils/FileId: make_file_id of the same file, with its theorems in
-- Utils/FileId/Valid. Utils/Urls: the functions on URLs and paths of that file (Segments, Local).
-- Utils/Boxes: the conversions of polygons and bounding boxes of src/ocrd_utils/image.py, with the
-- least box (Bounds) and the conversions there and back (Convert).
-- Utils/Params: the parsing of JSON parameters of src/ocrd_utils/str.py and introspect.py; Printed
-- is on parameters that json.dumps has printed.
-- Tasks: validate_tasks of src/ocrd/task_sequence.py, with check_file_grp of
-- src/ocrd_validators/workspace_validator.py; Tasks/Groups is on the file groups that tasks read
-- and write. Tasks/Parse is parse and __str__ of ProcessorTask, on Tasks/Shell for shlex.split
-- (Words), with Lines and RoundTrip on a task that is printed and parsed. Tasks/Run is run_tasks,
-- with run_cli of src/ocrd/processor/helpers.py; Run/Fed is on the file groups that are there.
-- Network/Jobs and Network/Database: src/ocrd_network/models/job.py and the functions of
-- src/ocrd_network/database.py on jobs. Network/Pages: expand_page_ids of
-- src/ocrd_network/utils.py.
-- Network/LockedPages: CacheLockedPages of src/ocrd_network/server_cache.py. Its children are on
-- the pages as a set (View), the check of a request (Check) and unlocking (Unlock).
-- Network/Requests: CacheProcessingRequests of the same file. Its children are on the requests
-- that are consumed (Consume) and on cancellation (Cancel, Cancel/Steps, Ready).
-- Network/Server: the handlers of class ProcessingServer of
-- src/ocrd_network/processing_server.py, as functions on a record Server with the two caches, the
-- database, and what was pushed, started and stopped. Server/Workspaces is the collection of
-- workspaces, Server/Checks the checks of a request, Server/Push the call of a network agent.
-- Server/Submit is validate_and_forward_job_to_network_agent (Stages, Outcomes, Accept, Reach,
-- Failures, Returns);
-- Server/Callback is remove_job_from_request_cache (Release, Consumed); Server/Workflow is
-- task_sequence_to_processing_jobs and the status of a workflow (Status, Dependencies), with the
-- workflow scripts of src/ocrd_network/server_utils.py (Script).
-- Models: the METS file of a workspace, src/ocrd_models/ocrd_mets.py and ocrd_file.py. Models/Tree
-- has the elements, Models/Pages the physical pages (Links), Models/Select get_physical_pages
-- (Literal), Models/Find find_files (OnPage), and Models/Mets the methods that change file groups
-- and files: Lookup and Refuse on the checks of add_file, Append, Add, Remove, Gone and
-- RemoveGroup on what they leave, and Fewer, Valid, Steps and Reach on the well-formedness that
-- they keep. Models/Merge is merge. Models/Cache is _fill_caches and the lookups that read the
-- caches (Fill, Same, Links). Models/Report is ValidationReport of src/ocrd_models/report.py.
-- Processor: zip_input_files of src/ocrd/processor/base.py. Keys and Slots are on one page and one
-- group, Tuples and Zip on all of them, and Choice on the strategies of on_error.
-- Backup: WorkspaceBackupManager of src/ocrd/workspace_backup.py, on a record Store with the METS in
-- memory, the METS file and the backup directory. Newest is on the order of the backups, Kept on what
-- all calls keep, and Undo on two calls of undo.
-- Validators: PageValidator of src/ocrd_validators/page_validator.py. Elements has what it reads of a
-- PAGE-XML file, Texts the text results of an element (Strip, Equivs, and Order on sorting), Order
-- the reading order, and Checks the checks of one element whose children are checked: Repeat, Fixed,
-- Kept and Again are on an element that is checked a second time after a repair, Ordered and Each on
-- its children in reading order, and Report on what is kept of the report. Page is the recursion and
-- validate (Steps, Errors); Fix, Levels, Unchanged and Returns are on what a validation does.
-- Tests: the theorems at concrete inputs.
--
-- State. A method of the source that changes `self` is a function from a state to a result and a
-- state; a state outlives an exception, as in Python. The coroutines of the source are modelled as
-- if each handler ran to its end before another one starts. An element of the METS file has a number
-- as its identity, which stays when its attributes change, as an lxml element does. The methods of
-- OcrdMets that change something are modelled without caches; the caches as they are after
-- _fill_caches.
--
-- Other services are the record Services: the deployer, RabbitMQ, the processor servers, the
-- validator of parameters, the file system; those of validate_tasks are the record Tools, and those
-- of run_tasks the records System and Reader. Python's regular expressions are the record Regex,
-- shapely is the record Geometry, and Python's tests of characters are the record Characters;
-- hashlib, glob and the reading and writing of a METS file are the record Tools of Backup. Ids that
-- the source generates, and times, are arguments.
--
-- PAGE. The children of an element are validated before its own checks, which then put together the
-- report in the order of the source. An exception leaves no page. A glyph is left as it is.
--
-- Fuel. cancel_dependent_jobs is recursive through the shared queue: it runs on fuel, one for each
-- nested call. A nested call comes after an element has left the queue, so one more than the length
-- of the queue is enough, and remove_job_from_request_cache gives that. The decimal digits of n are
-- computed on the fuel n + 1, which is more than there are. All other functions are structurally
-- recursive. Numbers are unbounded, as in Python; sys.maxsize is an argument of bbox_from_polygon.
--
-- Not modelled: logging, log files and times; MongoDB itself; starting and stopping processes; the
-- updates of the METS caches, the agents and the identifier of a METS file, and the classes of PAGE
-- (src/ocrd_models); workspaces but for their backups, and processors but for their input files and
-- the command lines that run_tasks runs (src/ocrd); images, coordinates with fractions, safe_filename
-- and concat_padded (src/ocrd_utils); the other validators (src/ocrd_validators), which rest on JSON
-- schemas; and the command line. validate_tasks takes a record Mets in place of a METS file.
pub mod Common
pub mod Tasks
pub mod Utils
pub mod Network
pub mod Models
pub mod Processor
pub mod Backup
pub mod Validators
pub mod Tests
