-- ===== src/Lib.antt =====
-- hueplusplus, a C++ library for Philips Hue lights. The development models the parts of the
-- library that carry its own logic, and proves what makes them correct.
--
-- Parts and files:
-- - Base: names of the libraries, Boolean tests, integers (Int), bits (Bits), lists and texts,
--   and the result of a call that may throw (Result, Error). Std: what the sources use of the C++
--   standard library, std::to_string, std::stoi and %02u in Std.Number, the members of
--   std::string in Std.Text.
-- - Json: what the sources call of the JSON library, as the record JsonLib of operations, with
--   its documented laws; Json.Value is a concrete one, on which examples run, and Json.Value.Laws
--   shows that it obeys the laws.
-- - Cache: the class APICache of src/APICache.cpp, where a cache is itself and the list of its
--   bases. Cache.Requests, Reads, Parts and Nested say what it sends and what it reads.
-- - Commands: RunWithTimeout and the request methods of src/HueCommandAPI.cpp (run_with_timeout,
--   request), and the exception of an error reply of src/HueException.cpp.
-- - Http: BaseHttpHandler of src/BaseHttpHandler.cpp, the text of a request and the body of a
--   response.
-- - Rules: Condition and CreateRule of src/Rule.cpp, Action of src/Action.cpp, and
--   StateTransaction::toAction. Rules.Setters: Rule with its setters. Rules.Helper: the helpers
--   of include/hueplusplus/Condition.h.
-- - Validation: validatePUTReply of src/Utils.cpp. Settings: the setters of StateTransaction, one
--   constructor each, with apply for what they write. Transaction: commit and trimRequest of
--   src/StateTransaction.cpp; commit sends through Commands and checks the reply through
--   Validation. Validation.Matches is about one entry of a reply, Transaction.Filled about the
--   state that trimRequest reads and may fill, Transaction.Shown about a state that has already
--   what is asked for.
-- - Lights: Light of src/Light.cpp and include/hueplusplus/Light.h, whose methods change a cell
--   and the line to the bridge. The cell is an interface, CacheOf; Lights.Cached fills it with an
--   APICache that is filled and never refreshed. Lights.Brightness, Temperature, Color and Alerts
--   are the strategies of src/Simple*Strategy.cpp and src/Extended*Strategy.cpp, with the methods
--   of Light that call them. Lights.Shown says what a transaction does to a cell that shows the
--   state; Steps, Restoring and Unrestored follow an alert.
-- - Bridge: requestUsername, startStreaming, stopStreaming and setHttpHandler of src/Bridge.cpp,
--   with safeGetMember of include/hueplusplus/Utils.h; Bridge.Finder is BridgeFinder. The refresh
--   of setHttpHandler is that of Cache.
-- - Scenes: LightState and LightStateBuilder of src/Scene.cpp. Scenes.Told is the abstract view
--   of the builder that Scenes.Refines compares it with. Scenes.Create is CreateScene,
--   Scenes.Stored what Scene reads of its state, Scenes.Scene its setters and recall.
-- - Groups: Group and CreateGroup of src/Group.cpp, with one constructor of ActionChange for each
--   setter of the action of a group.
-- - Devices: what LightFactory of src/HueDeviceTypes.cpp sets in a light (create_light), and the
--   getters and setName of src/BaseDevice.cpp.
-- - Cache.Holder: an object that keeps a cache and sends requests of its own. Groups.Setters are
--   setName, setLights and setRoomType of Group. Cache.Fresh is about a refresh behind a request.
-- - Resources: ResourceList of include/hueplusplus/ResourceList.h and its descendants. Its type
--   of ids is the interface IdType, which numbers and texts fill. Resources.NewDevices is
--   NewDeviceList of src/NewDeviceList.cpp.
-- - Time.Duration: durationTo_hh_mm_ss and parseDuration of src/TimePattern.cpp. Time.Weekdays:
--   the class Weekdays. Time.Timestamp: timestampToTm, timepointToTimestamp, parseTimestamp,
--   parseUTCTimestamp. Time.Pattern: AbsoluteVariedTime, RecurringTime, TimeInterval, Timer and
--   TimePattern, with to_text for toString and parse for TimePattern::parse; operator= and the
--   copy constructor are in Time.Pattern.Copy.
-- - Schedules: Schedule and CreateSchedule of src/Schedule.cpp, with one constructor of Change
--   for each setter.
-- - Sensors: Sensor, CreateSensor and DaylightSensor of src/Sensor.cpp; Sensors.Settings compares
--   what is written with what is read. Sensors.Kinds: the sensors of src/CLIPSensors.cpp (Clip)
--   and src/ZLLSensors.cpp (Zgp, Switch, Presence, Temperature, LightLevel), with getLastUpdated
--   of all of them; Echo and Updated are about what their getters read. Sensors.Conditions: the
--   conditions made of a sensor.
-- - Colors: src/ColorUnits.cpp and include/hueplusplus/ColorUnits.h, with the operations of
--   floats as the record FloatOps. Colors.Gamut is about what a gamut does to a point,
--   Colors.Range is about the ranges of hue and saturation. Lights.Gamut: getColorGamut and
--   setColorRGB of Light; Lights.Gamut.Corrected is about the gamut and the point that they take.
-- - Entertainment: EntertainmentMode of src/EntertainmentMode.cpp, its message and setColorRGB
--   (Entertainment), update (Sending), connect and disconnect (Connection, with the loop of the
--   handshake in Connection.Handshake), and hexToBytes (Hex). Entertainment.Packet is the view of
--   the message as a list of lights with colours.
--
-- How code is read:
-- - A text is the list of its bytes. Positions are 64-bit words, with npos and wrap-around
--   written out. An int is an integer, with its range where the code can leave it. A duration or
--   time point is its count of nanoseconds, as in libstdc++. Error.unspecified stands where the
--   language or the C library defines no result: signed overflow, or strftime outside its ranges.
-- - localtime and mktime are a parameter, the record TimeLibrary; the theorems that need it
--   assume that mktime takes back what localtime gave, which fails only for local times that
--   occur twice. TZ is passed as a value. The branch of parseUTCTimestamp for Windows is not
--   modelled.
-- - Printing a number has 20 rounds, enough for 64 bits. The loops of requestUsername, of update
--   and of the handshake have fuel, one for each attempt, write or round, and theorems say how
--   much is enough. All other recursion follows a list.
-- - A method that changes objects is an Action: its result, or the exception that leaves it, with
--   the state after it.
-- - A light and its cache are one light: other lights on the same cache do not change it while a
--   method runs. The requests of a cache and those of a light are counted apart.
-- - The bridge is a parameter: in Cache the answer to each request, in Commands each call of the
--   HTTP handler with its reply and end (the record Network). Times are ticks. One thread makes
--   the calls: the mutex of the request methods is not modelled.
-- - JSON values, floats and their operations are parameters; where j[i].get<float>() finds no
--   number, it throws, and j[i] of a variable array that is too short has filled it with nulls;
--   the arrays of a request have two numbers, as setColor makes them. A cache is given as a
--   value, so that two objects that share a base do so by giving it on; a transaction holds the
--   value that its pointer points to.
-- - The functions of mbedtls are parameters, by the codes that they give. The handshake and
--   update have fuel, one for each call; theorems say how much is enough.
-- - What operator= leaves unset in an absolute time is an argument, the value of the bytes that
--   stood there.
--
-- Not modelled: the sockets of the HTTP handlers and of UPnP, which only call the system;
-- threads; the search for bridges on the network; the contexts of mbedtls that an entertainment
-- mode owns; the constructors of the objects that keep a cache; the file names of
-- src/ModelPictures.cpp.
pub mod Base
pub mod Std
pub mod Json
pub mod Cache
pub mod Http
pub mod Commands
pub mod Validation
pub mod Settings
pub mod Transaction
pub mod Bridge
pub mod Lights
pub mod Rules
pub mod Scenes
pub mod Groups
pub mod Devices
pub mod Resources
pub mod Time
pub mod Schedules
pub mod Sensors
pub mod Entertainment
pub mod Colors
