-- ===== src/Lib.antt =====
-- The firmware management service (owfms): which firmware is the latest for a device type, which
-- revision every device runs, and which devices are to be upgraded.
--
-- The parts, and the files that model them:
--   * Common: lists, texts as lists of character codes, ordered maps, decimal numbers.
--   * Poco, PocoModel: the few functions of Poco on texts that the code calls, as parameters, and
--     concrete ones for tests.
--   * LatestFirmwareCache (src/LatestFirmwareCache.cpp): the newest firmware and the newest release
--     candidate of each device type. History runs AddToCache over a list of announcements; Newest says
--     what Find... returns after it.
--   * Utils/Serial, Utils/Base64 (src/framework/utils.cpp): serial numbers, MAC addresses, Base64.
--   * Orm (src/framework/orm.h): Where writes clauses, Schema is the constructor of DB, Statements the
--     texts of the statements, Engine the record operations (CreateRecord, GetRecord, GetRecords,
--     UpdateRecord, DeleteRecord, Iterate) over an SQL engine that is a parameter. Engine/Laws and
--     Engine/Pages state what is relied on of SQL: which rows a statement returns and leaves, as a set,
--     and that LIMIT and OFFSET cut a page out of one listing. Engine/Model is a list that keeps them.
--   * Json: the JSON library of Poco as a parameter, with what it documents as JsonLaws. Json/Codecs is
--     field_to_json and field_from_json of src/framework/RESTAPI_utils.h for one member, Json/Struct
--     to_json and from_json of a struct, given by the list of its members; RoundTrip and Members say when
--     reading the text of an object restores what was written. Json/Model is a concrete library for tests.
--   * SecurityObjects (src/RESTObjects/RESTAPI_SecurityObjects.cpp): users, tokens, keys and notes.
--   * FmsObjects (src/RESTObjects/RESTAPI_FMSObjects.cpp, Convert of src/storage/): the records of the
--     service, with their JSON in Firmwares and Devices.
--   * Service: the state that the singletons share, with the clock and the UUIDs, and its parameters.
--   * Storage/Firmwares, Storage/History, Storage/Devices (src/storage/orm_firmwares.cpp,
--     orm_history.cpp, orm_deviceInfo.cpp): the three tables. A method takes the state and returns its
--     result with the new state; `none` or false is its result false.
--   * AutoUpdater (src/AutoUpdater.cpp, src/SDK/Prov_SDK.cpp): the queue of devices and the timer.
--   * DeviceCache (src/DeviceCache.cpp), NewCommandHandler (src/NewCommandHandler.cpp) and
--     NewConnectionHandler (src/NewConnectionHandler.cpp): the handlers of Kafka messages. They call
--     the tables, LatestFirmwareCache and AutoUpdater; the JSON libraries are parameters.
--   * ManifestCreator (src/ManifestCreator.cpp): Bucket is ReadBucket, Manifest is ComputeManifest,
--     AddManifestToDB and run, Refresh is RunUpdateTask with the thread that it starts: its steps and the
--     requests are events that come in any order. The S3 client is a parameter. run changes the table of firmwares through Storage.
--   * AuthClient (src/framework/AuthClient.cpp): tokens and API keys against two caches and the security
--     service.
--   * MicroService (src/framework/MicroService.cpp): the services of the system that a service keeps by
--     the messages of the bus, and the messages that it sends itself (Messages). A message can have
--     AuthClient drop a token.
--   * KafkaManager (src/framework/KafkaManager.cpp): the functions that watch the topics of Kafka, and
--     which of them a message is handed to.
--   * RestFramework (src/framework/RESTAPI_Handler.h, src/RESTAPI/RESTAPI_Routers.cpp): Bindings finds the
--     handler of a path and binds its parameters, Parameters reads the query, Dispatch is handleRequest,
--     which asks AuthClient and calls a method of the handler.
--   * Rest (src/RESTAPI/): FirmwareHandler is the handler of one firmware, HistoryHandler the removal of
--     an entry of the history, FirmwareAgeHandler the ages of the firmware of devices; a request is the
--     arguments, and a Response what is answered.
--   * RateLimiter (src/framework/RESTAPI_RateLimiter.h): the limit on the calls of one client.
--   * Dashboard (src/Dashboard.cpp): the report on the devices, kept for two minutes.
--   * ServiceModel: a concrete service of lists, for tests.
--
-- Names: a method keeps its name in lower case (AddFirmware is add_firmware). The second AddHistory is
-- add_revision, DeleteHistory with an id is delete_history_entry, DeviceCache::AddToCache is remember
-- and its GetDevice is recall. Integers are natural numbers, and what wraps around at 32 or 64 bits
-- says so (`% 2 ^ 64`). A mutex makes a method one step.
--
-- Fuel and bounds: Iterate runs on a number of batches of 50 rows, and enough are given when that many
-- batches are more than the rows. The timer of AutoUpdater runs for a number of turns, after which Stop
-- has cleared its flag.
--
-- ReadBucket runs on a number of pages, and as many as the listing has are enough.
--
-- Not modelled: the HTTP server and what is written to its streams, the other handlers, the wait of one
-- thread for another's dashboard, KafkaManager's producer and threads, configuration, logging and
-- start-up, and the structs of other services. The grouped queries of HistoryDB are left out, as are
-- the operations of the object mapper that no table of the service uses.
pub mod Common
pub mod Poco
pub mod Json
pub mod SecurityObjects
pub mod LatestFirmwareCache
pub mod PocoModel
pub mod Utils
pub mod Orm
pub mod FmsObjects
pub mod Service
pub mod Storage
pub mod ManifestCreator
pub mod AutoUpdater
pub mod DeviceCache
pub mod NewCommandHandler
pub mod NewConnectionHandler
pub mod RateLimiter
pub mod AuthClient
pub mod MicroService
pub mod KafkaManager
pub mod Dashboard
pub mod RestFramework
pub mod Rest
pub mod ServiceModel
