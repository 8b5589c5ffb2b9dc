-- ===== src/Lib.antt =====
-- Verification of the firmware of an ESP32 web terminal: a web page that shows the serial console
-- of a board, and switches its power and reset lines.
--
-- The program. main/web_server.c runs the HTTP server: its handlers check each request through
-- main/auth.c, change the settings of main/config.c, write the serial port, drive the pins through
-- main/gpio_control.c, tell main/wifi_manager.c which network to join, and install updates, which
-- main/ota_github.c can also fetch. Serial output arrives on the tasks of the UART and of the USB
-- host; it goes through a ring of slots to the task of the HTTP server, which alone sends to the
-- WebSocket clients, and which sends only to clients whose session is still valid. The event
-- handler of main/wifi_manager.c runs on the event task and keeps the device reachable: as a
-- station, or through its own access point.
--
-- Files.
--   Prelude       shared names: tests into Bool, lists over the native numbers, C strings; the numbers
--                 that sscanf reads and snprintf prints (Prelude/Digits), the integers (Prelude/Int).
--   Auth          main/auth.c. Auth/Hosts models host_entry, auth_is_locked_out and the counters of
--                 auth_login; Auth/Sessions models auth_validate_session, auth_logout,
--                 auth_invalidate_all_sessions and the slot that auth_login takes; Auth/Token models
--                 generate_token; Auth/Login puts auth_login together; Auth/Cookie models
--                 cookie_value and auth_get_token_from_request, Auth/Request auth_check_request.
--   Config        main/config.c. Config/Hash models the hashes and constant_time_compare, Config/Store
--                 the configuration, config_init and save_to_nvs, Config/Setters the setters and
--                 config_check_password.
--   Gpio          main/gpio_control.c: power_set, its callers, the reset pulse, the initialiser.
--   Ws            main/web_server.c. Ws/Ring models the ring, ws_enqueue and the pop of
--                 ws_flush_work; Ws/Clients models the table of clients and ws_flush_work as a whole;
--                 Ws/Wakeup models the producers and the httpd task as a step relation.
--   Http          main/web_server.c: what the handlers share, the state of the server and its guards
--                 require_auth and require_password_changed. Http/Body models read_body, Http/Settings
--                 handle_config_post, one function for each setting in the order of the source, joined
--                 as Http/Flow says, Http/Login handle_login, Http/Handlers the logout, reset, power,
--                 scan, reboot and GitHub handlers, Http/Upload handle_ota, Http/Certs load_or_save_certs
--                 and handle_tls_upload, Http/Pages the redirect and the terminal library, Http/Socket
--                 handle_ws, both its handshake and its data frames, and Http/Routes the table of guarded
--                 handlers.
--   Wifi          main/wifi_manager.c: the event handler and the reconnect timer. Wifi/Hostname models
--                 sanitize_hostname, Wifi/Manage the initialiser and the connect, disconnect and
--                 access-point calls, Wifi/Scan the scan, Wifi/Reach the manager and its driver as a
--                 step relation.
--   Ota           main/ota_github.c: semver_compare, the check of a release, the update loop.
--   Serial        main/serial_port.c: the start of the ports, the dispatch to their drivers and the
--                 receive callback.
--   Uart          main/uart_bridge.c: the bridge to the UART, and a round of its receive task.
--   Start         main/main.c. Start/Boot models app_main, with web_server_init and the start of the
--                 server; Start/Receive joins the receive task, the callback, the ring and the HTTP
--                 task.
--   Usb           main/usb_cdc_bridge.c: usb_event_task and the operations of the port as interleaved
--                 steps, each with the calls that it makes of the USB host stack. Usb/Events models the
--                 callbacks, the queue of events and the start of the tasks.
--   Tests         under each part, the theorems applied to concrete inputs.
--
-- State and environment. A table of the source is a list, an index a position in it, and each
-- function takes the tables and gives them back; the server's state is the record Server of Http,
-- put together from the states of the parts that the handlers call. The calls of ESP-IDF that a
-- function makes are the list of effects beside its result, in order. What a function reads from
-- outside is an argument: the clock (seconds in auth.c, microseconds elsewhere), the random bytes
-- of a token, what a call of ESP-IDF answers, whether an allocation, a send or httpd_queue_work
-- succeeds, what cJSON found in a body. Times are natural numbers; where C subtracts two times,
-- the comments say why the stopped subtraction of the model gives the same test. Ring indices wrap
-- at 2^32.
--
-- Loops. The loop of cookie_value has fuel for the length of the header and two rounds more, and
-- its constructor `exhausted` stands for the end of the fuel. The loop of ws_enqueue has fuel for
-- each byte, that of ws_flush_work for each slot of the ring. The loops over a socket, an upload
-- or an update run over the list of what the calls answer.
--
-- Concurrency. All functions of auth.c, of the handlers and of the clients run on the httpd task,
-- so they are modelled one call after another. The ring is shared between tasks; Ws/Wakeup
-- interleaves its critical sections and calls in any order, with any number of producers. The
-- device of the USB port is shared between usb_event_task and the httpd task; Usb interleaves
-- their steps, with the section of an event under the mutex and the write to the port's
-- `available` after it as two steps, and so for usb_cdc_set_baud_rate the write of the rate and
-- the section under the mutex. Wifi/Reach interleaves the events, the timer and the two halves of
-- a scan, each as a whole; it records when the driver refuses a call whose error these ignore. A
-- timer command is taken to be queued. The start of Start/Boot keeps the list of what it did, also
-- where an ESP_ERROR_CHECK aborts it.
--
-- NVS is a record of operations with the law that a key reads back as what was last written, and
-- the writes of a certificate and of a key can be refused; SHA-256 is a function whose values are
-- 32 bytes. The number of serial ports is an argument.
--
-- Not modelled: flash that has to be erased, the time service of main/main.c, the handlers that
-- only read state out (the system information and the settings), the list of IPv6 addresses, mDNS
-- beyond the hostname, logging, the front end, and the ESP-IDF itself.
pub mod Auth
pub mod Config
pub mod Gpio
pub mod Http
pub mod Ota
pub mod Prelude
pub mod Serial
pub mod Start
pub mod Uart
pub mod Usb
pub mod Wifi
pub mod Ws
