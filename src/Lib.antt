-- ===== src/Lib.antt =====
-- An ESP32 firmware that follows a transceiver over its CAT protocol and selects the antenna of the
-- current band on a relay board that it reaches over TCP.
--
-- The parts and how they work together:
--
--   main/cat_parser.cpp reads the UART and finds FA and IF answers. A frequency in another band than
--   the cached one goes to main/antenna_switch.cpp, which searches the configuration of
--   main/config_manager.cpp for the band and its first enabled port and leaves a request in
--   main/relay_controller.cpp. The task of the relay controller takes the request, sends one switch
--   command through main/tcp_client.cpp, and reads the board's reply back into its cached state.
--   main/main.cpp boots the device by the steps of main/system_initializer.cpp: Wi-Fi first
--   (main/wifi_manager.cpp, which also starts the web server), then the configuration, the relay
--   controller and the parser. A boot that fails is counted by main/restart_manager.cpp, and restarts or
--   waits for SmartConfig. main/webserver.cpp shows and changes the configuration.
--
-- The files:
--
--   Base, Err and Text are shared: numbers, lists and tests, the esp_err_t codes that the modelled
--   code tells apart, and the part of the C string library that main/ uses (strtol, strtoul, strstr,
--   rfind, to_string) over lists of bytes.
--   Config models the structs of main/antenna_switch.h and the search for a band and a port;
--   Config/Search shows that search to be the first match.
--   ConfigManager models main/config_manager.cpp, with the calls of NVS as the parameter Nvs. Its
--   functions keep their names; the state is the configuration in memory, the observers with what
--   they were told, and the flash.
--   AntennaSwitch models main/antenna_switch.cpp: the functions antenna_switch_* without that prefix.
--   The global relay controller is an Option, and a call through a null pointer gives none.
--   Relay models main/relay_controller.h and the accessors of RelayController; Relay/Response is
--   parse_relay_state_response, Relay/Command is send_command and the commands, init included,
--   Relay/Task is execute_relay_change and tcp_task, and Relay/Verify is verify_relay_state. What they
--   call on the TCP client is the parameter Channel; the connection also carries the clock.
--   TcpClient models main/tcp_client.cpp over the socket calls of lwip, the parameter Net;
--   TcpClient/Interface gives the client as the Channel of the relay controller.
--   UdpClient models main/udp_client.cpp over the parameter UdpNet.
--   CatParser models main/cat_parser.cpp: uart_data and drain are the body of uart_task, process_loop
--   that of process_command, init sets up the UART through the parameter Uart, and CatParser/Bridge is
--   uart0_to_uart2_task. Handlers work on the parser and the antenna switch together, System.
--   Storage is the part of NVS that main/restart_manager.cpp and main/wifi_manager.cpp call, and what
--   NVS documents about it; RestartManager models the first, with the counter in RestartManager/Counter.
--   WifiManager models main/wifi_manager.hpp and wifi_manager.cpp: event_handler has a clause for each
--   event, smartconfig_begin and smartconfig_poll are the SmartConfig task, and WifiManager/Setup is init
--   and the addresses. WifiManager/Reachable has the steps of all tasks, WifiManager/Untouched what init
--   leaves alone.
--   SystemInitializer models main/system_initializer.cpp, with all libraries as one Platform, and
--   AppMain models app_main of main/main.cpp, whose outcome is a main loop, a wait or a restart.
--   AppMain/Restarts has the machine that the restart policy implements, AppMain/Quiet and AppMain/Boots
--   show that it does.
--   HtmlContent models main/html_content.cpp: the two pages byte for byte, as the texts between the
--   values (Style, Root, Scripts) and the pieces of the form (Pieces). HtmlContent/Form is what a browser
--   submits for the pieces, by the rules of HTML, and submitConfig of the script of the page;
--   HtmlContent/Edit has the functions of the script that change the table of bands, and
--   HtmlContent/Edit/Table the form with a changed table.
--   WebServer models main/webserver.cpp: a handler gives its result, its reply, the device, and the
--   memory that it has not given back. WebServer/ConfigPost is config_post_handler over the interface
--   Json of cJSON, WebServer/Lifecycle the start and the stop of the server over the interface Httpd.
--   Tuning puts the parser, the antenna switch and the relay task together.
--   Tests holds concrete surroundings and examples.
--
-- Every operation is a function from the state to a result code and the new state, and the same early
-- returns stand in the same order as in the source. Log lines, the watchdog and socket options that
-- no later code depends on are left out. A read of std::map::operator[] inserts its key, as the log
-- loop of update_all_relay_states does.
--
-- Numbers and fuel: uint16_t, uint8_t and tick arithmetic is written out with its modulus; char is
-- unsigned and long has 32 bits, as on the ESP32. The loops over a text take its length as fuel, since
-- each round takes a byte off. The receive loop takes the size of the buffer, since every round but
-- the last adds a byte. The send loop takes two more rounds than bytes, since a round sends a byte or
-- uses one of two retries. Retry loops count down from their three attempts, the waits of the boot from
-- 60 rounds of half a second and 300 rounds of a tenth. The waits for SmartConfig never end by
-- themselves, so their number of rounds is an argument and waiting on is an outcome.
--
-- What other tasks do while a task waits is a function of the platform (others, events, meanwhile), on
-- which a theorem puts conditions where it needs them; the pauses within CatParser::init are left out.
-- The handlers of one task are atomic steps. Each init of the relay controller that succeeds starts a
-- task, and Relay/Task/Reachable has the steps of a controller with any number of tasks;
-- Relay/Task/Interleaved has requests that arrive within a round of the TCP task, and Relay/Task/Machine
-- the machine of wishes and shown relays that Relay/Task/Refines is about.
--
-- Not modelled: the scripts of the root page and the timers of the configuration page (they are text
-- of the pages), the main loop of app_main (feeds the watchdog),
-- log_network_diagnostics (writes to the log) and destructors, which run for no object but a controller
-- of a failed boot.
pub mod Base
pub mod Err
pub mod Text
pub mod Config
pub mod ConfigManager
pub mod Relay
pub mod AntennaSwitch
pub mod CatParser
pub mod TcpClient
pub mod UdpClient
pub mod Storage
pub mod RestartManager
pub mod WifiManager
pub mod SystemInitializer
pub mod AppMain
pub mod HtmlContent
pub mod WebServer
pub mod Tuning
pub mod Tests
