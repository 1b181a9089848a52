-- ===== src/Lib.antt =====
-- A model of libvdeplug_wirefilter, a plugin of libvdeplug that carries packets between the program that
-- opened it (left) and a nested VDE connection (right), and changes the properties of the wire on the way:
-- loss, delay, duplicates, bandwidth, speed, noise, MTU and the size of the channel's buffer.
--
-- How the parts work together. The program and the nested connection give packets to one thread
-- (`packetHandlerThread`), which runs `handlePacket` on each: handlers, one for each property, decide on the
-- packet with the values of the current node of a Markov chain and with random numbers. A copy of a packet
-- that has to wait goes into a queue, which a timer empties; all others are sent at once. A second timer
-- moves the chain from node to node.
--
-- Which file models what (paths from the repository's root):
-- - Base: shared names, lists, functions updated at a point, how a call ends (`Run`), integers.
-- - Packet: includes/wf_conn.h and includes/wf_conn.c, `struct packet_t`.
-- - Queue: includes/wf_queue.c. `enqueue`, `dequeue`, `resizeQueue`, `compareNode` and `nextQueueTime` are
--   `enqueue`, `dequeue`, `resize_queue`, `compare_node` and `next_queue_time`; the loops are `rise` and
--   `sink`. Queue/Inv has the invariant, Queue/Fifo the list that a queue in FIFO mode stands for.
-- - Double: what the code does with a `double`; the type is a parameter.
--   Double/Whole has the integers as numbers with a text.
-- - Text: C strings as lists of characters, and what the code uses of the C library on them (`%d` of
--   `sscanf`, `atoi`, `isspace`). Text/Scan has the laws.
-- - Markov: includes/wf_markov.c: `markovResize`, `copyAdjacency`, `markovRebalanceNode`, `markovStep` and
--   `initMarkov`. Markov/Parse is `parseWireValueString` and `setWireValue`, Markov/Edges `markovSetEdges`
--   (with Markov/Edge for one edge) and Markov/Names `markovSetNames`.
-- - Time: includes/wf_time.c.
-- - Conn: includes/wf_conn.h, `struct vde_wirefilter_conn`, and the world that the code calls: random
--   numbers, the clock, memory, and the events that it causes. Conn/Monad has the calls.
-- - Wire: the handlers, `handlePacket` and `sendPacket` of libvdeplug_wirefilter.c, and
--   `computeWireValue` of includes/wf_markov.c.
-- - Console: includes/wf_management.c, `acceptManagementConnection` and `closeManagementConnection`, and the
--   blocks of `packetHandlerThread` for clients that come and go. Console/Find is `commandlist` and
--   `findCommandIndex`, Console/Setters and Console/Info are the commands that change and that show the
--   state, Console/Print is `print_mgmt`, Console/Init is `initManagement`, Console/Execute is `executeCommand`, `loadConfig` and
--   `handleManagementCommand`, and Console/Round has the three blocks for the management socket in one,
--   with their rounds in Console/Round/Rounds.
-- - Loop: the blocks of `packetHandlerThread` for packets and timers.
-- - Plugin: `vde_wirefilter_open`, `vde_wirefilter_send` and `vde_wirefilter_recv` of
--   libvdeplug_wirefilter.c.
--
-- Numbers. Machine integers are natural numbers with the wrap-around of the code written out where the
-- code can reach it (`add32`, `sub32`, `add64`); signed integers that may be negative are `Base.Int.ℤ`.
-- Theorems that need exact arithmetic of doubles say so (`IsExact`); in the examples integers stand for
-- doubles. An array is a function with the number of its allocated entries, and an access outside of it is
-- a fault of the run, as is the use of NULL.
--
-- Fuel. `rise` and `sink` run on the size of the queue plus one: the index that they start from halves or
-- doubles in each round and stays between 1 and the size. The forwarding of due packets runs on the number
-- of waiting packets plus one, since each round takes one out, and the hang-up loop on the number of clients
-- plus one, since each round passes or removes one. The parsers of values, edges and names run on the length
-- of the string plus one, since each round takes at least one character. `loadConfig` runs on the number of
-- files that may be open at once; beyond it `fopen` gives NULL. The loops that wait for a random number (duplicates,
-- noise, the Gaussian variation) end with probability 1 but in no fixed number of rounds: the world grants
-- a number of rounds.
--
-- Strings and output. A string is the list of its characters, less the NUL at its end; the code's writes to a
-- string that it restores are left out. `%lf` of `sscanf` and `%g` of `printf` are parameters (`DoubleText`),
-- as are `strerror` and the contents of files (`Console.Execute.Host`). A number that is too large for its C
-- type is read as itself.
--
-- Not modelled: closing (`vde_wirefilter_close`), the system calls of `openBlinkSocket` and `createManagementSocket`, of
-- which only success or failure counts, the log, and what is written to the pid file. Freeing of memory is not modelled. Of
-- `receive_lock` the model has that a packet to the program waits for it: with a reader it is got in the end, and
-- without one only the first packet gets it, and the call of the next one never returns (`blocked`). The
-- thread is modelled block by block, with `poll` left open; the blocks for the management socket are also
-- composed to their part of a round.
pub mod Base
pub mod Conn
pub mod Console
pub mod Double
pub mod Loop
pub mod Markov
pub mod Packet
pub mod Plugin
pub mod Queue
pub mod Text
pub mod Time
pub mod Wire
