-- ===== src/Lib.antt =====
-- State machines and services of the browser, with the theorems that make them correct.
--
-- The program's parts and the files that model them (paths from the repository's root):
--
-- * Captive portals, browser/captive_portal/. A network may answer every request with its login page.
--   Each tab has a CaptivePortalTabHelper, which follows the main-frame navigation of the tab and tells
--   a CaptivePortalTabReloader and a CaptivePortalLoginDetector about it; these ask the profile's
--   CaptivePortalService for a check, and the service's results come back to every tab.
--     CaptivePortal/TabReloader    captive_portal_tab_reloader.cc: `TabReloader` is the object's fields,
--                                  `on_load_start`, `on_load_committed` and so on are its methods, and
--                                  `set_state` is SetState, in its parts `leave`, `move_to` and `enter`
--     CaptivePortal/Service        captive_portal_service.cc: the state, requests, results, enabling
--     CaptivePortal/Service/Checks its checks, their pace, and shutdown
--     CaptivePortal/LoginDetector  captive_portal_login_detector.cc
--     CaptivePortal/TabHelper      captive_portal_tab_helper.cc, with the search for a login tab
-- * Internal authentication, browser/internal_auth.cc. A generator signs a domain and variables with a
--   tick of the clock; a verifier accepts each such passport once.
--     InternalAuth/Defs            constants, sane arguments, CreatePassport
--     InternalAuth/Ticks           the deque of used ticks, here a list with the largest first
--     InternalAuth/Verification    InternalAuthVerificationService
--     InternalAuth/Generation      InternalAuthGenerationService
--   The generator changes the verifier's key with its own, so `Auth` holds both.
-- * Policy invalidation, browser/policy/cloud/cloud_policy_invalidator.cc: which invalidations of a
--   cloud policy lead to a fetch of the policy, and when an invalidation is acknowledged.
--     Policy/Invalidator/Defs, Handling and Lifecycle
--     Policy/RemoteCommands        remote_commands_invalidator.cc beside it: the registration of remote
--                                  commands with the invalidation service
-- * The budget service, browser/budget_service/: how much work in the background a site may do. A site
--   asks its budget, reserves and consumes through the BudgetManager, which asks its BudgetDatabase.
--     Budget/Defs                  the data of budget_database.h and budget.proto, and the loops over chunks
--     Budget/Database              budget_database.cc: the cache, and the calls that the LevelDB database
--                                  has yet to answer, with what follows each answer
--     Budget/Manager               budget_manager.cc, and the events of a manager with its database
--   Amounts are doubles: a double is known by its bits, and the operations on doubles, which round, are
--   the parameter `Arithmetic`. Where a theorem speaks of sums, the amounts are whole numbers of a unit
--   with which the machine computes exactly (`IsExact`). Each method reads the clock once.
-- * Images for answers in the address bar, browser/bitmap_fetcher/: a service that shares one fetch among
--   the requests for a URL, and remembers a few images.
--     Bitmap/Service               bitmap_fetcher_service.cc, and the methods of bitmap_fetcher.cc
--   A fetcher is known by its address, which the allocator may give again; the identifiers of requests
--   wrap around as a 32-bit int does.
-- * App banners, browser/banners/app_banner_settings_helper.cc: what is remembered of a site's banners,
--   and when the next may be shown.
--     Banners/Parameters           the bounds, and the field trial that may change them
--     Banners/Settings             the settings helper
--   A base::DictionaryValue is a list of keys and values. A time is stored as a double, which may not
--   hold it exactly: `stored` is what comes back of it.
-- * Commands, browser/command_updater.cc: which commands can be executed, and who hears of a change.
--     Commands
-- * Tasks after the start, browser/after_startup_task_utils.cc: tasks that wait for the first page.
--     Startup
--
-- How the code is modelled. An object is a record of its fields, and a method is a function on it.
-- What an object tells others (the tab, the service, the client, the histograms) is a list of calls in
-- its record, newest first; what it reads of others is an argument. A field `dchecks` or `sound` says
-- whether every DCHECK so far has held, so that a theorem can say that none fails. A posted task or a
-- running timer is a field, and its run is an event. A callback that the code makes at once to another
-- object (a result that the service broadcasts) is a later event of that object. A history is a list of
-- events, and `Possible` says that each could come when it came.
--
-- Bounds. Times and counts are natural numbers: a difference is written so that it stops at 0 only
-- where the code compares with a positive bound or keeps the order of its times, and the number of
-- checks with one result, an int, does not overflow in the model. A tick of internal_auth.cc is 0 where
-- the code finds the clock too near an end of int64_t. The search for a free tick has twenty rounds, as
-- in the code, and the tick 0 where they run out; no other recursion has fuel.
--
-- What stands for code outside the repository: net::BackoffEntry is the list of the calls made to it,
-- with the time at which it next allows a request as a parameter; HMAC, base64, the tests for UTF-8 and
-- ASCII, and the conversions between integers and strings are the fields of `Base`; the image cache is
-- `CacheOps`, with what it promises in `Remembers`; the settings map is `SettingsOps`, with `IsSettings`;
-- the captive portal detector's answer, the engagement score, the answers of LevelDB, the allocator's
-- addresses, the clock, random numbers, the policy store, the field trial and the invalidation service's
-- answers are arguments of events and functions.
--
-- Not modelled: threads and locks (each call of internal_auth.cc holds its lock throughout), an observer
-- that calls its subject from within a notification, the factories of keyed services, the DCHECK of
-- DidRedirectNavigation, the accessors for tests, and every other part of browser/: glue to code outside the
-- repository, tables of flags and policies, and services that are independent of these.
pub mod Prelude
pub mod CaptivePortal
pub mod InternalAuth
pub mod Policy
pub mod Budget
pub mod Bitmap
pub mod Banners
pub mod Commands
pub mod Startup
