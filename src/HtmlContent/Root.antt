-- ===== src/HtmlContent/Root.antt =====
-- main/html_content.cpp: the page with the status of the device, which `generate_root_html` makes
-- around the addresses.
use esp32_band_decoder.Base.{[], ◌∷◌}
use esp32_band_decoder.HtmlContent.Lines.{lines_of}
use esp32_band_decoder.Text.{Bytes}

unfoldable pub before_ip_addr : Bytes
unfolding lines_of
before_ip_addr = lines_of (
    "" ∷ "    <h1>Antenna Controller</h1>" ∷ "    <div class=\"status-container\">"
    ∷ "        <div class=\"status-box\">" ∷ "            <h2>Current Status</h2>"
    ∷ "            <table>"
    ∷ "                <tr><th>Current Frequency</th><td id=\"current-frequency\">Updating...</td></tr>"
    ∷ "                <tr><th>Active Relay</th><td id=\"active-antenna\">Updating...</td></tr>"
    ∷ "            </table>" ∷ "        </div>" ∷ "        <div class=\"status-box\">"
    ∷ "            <h2>Network Information</h2>" ∷ "            <table>"
    ∷ "                <tr><th>IP Address</th><td>" ∷ [])

unfoldable pub before_mac_addr : Bytes
unfolding lines_of
before_mac_addr = lines_of ("</td></tr>" ∷ "                <tr><th>MAC Address</th><td>" ∷ [])

unfoldable pub behind_mac_addr : Bytes
unfolding lines_of
behind_mac_addr = lines_of (
    "</td></tr>" ∷ "            </table>" ∷ "        </div>" ∷ "    </div>"
    ∷ "    <div class=\"button-container\">"
    ∷ "        <a href='/config' class=\"button\">Edit Configuration</a>"
    ∷ "        <form action='/restart' method='post' style='display:inline' onsubmit='handleRestart(event)'>"
    ∷ "            <button type=\"submit\" class=\"button\" style=\"background-color:#e74c3c\">Restart Device</button>"
    ∷ "        </form>"
    ∷ "        <form action='/reset-wifi' method='post' style='display:inline' onsubmit='return confirm(\"Reset WiFi credentials?\")'>"
    ∷ "            <button type=\"submit\" class=\"button warning\">Reset WiFi</button>"
    ∷ "        </form>" ∷ "        <script>" ∷ "            function handleRestart(event) {"
    ∷ "                if (!confirm('Are you sure you want to restart the device?')) {"
    ∷ "                    event.preventDefault();" ∷ "                    return false;"
    ∷ "                }" ∷ "                const button = event.target.querySelector('button');"
    ∷ "                button.textContent = 'Restarting...';"
    ∷ "                button.disabled = true;" ∷ "" ∷ "                setTimeout(() => {"
    ∷ "                    document.body.innerHTML = '<h1 style=\"text-align:center;margin-top:50px;\">Device is restarting...</h1><p style=\"text-align:center\">This page will refresh in 10 seconds.</p>';"
    ∷ "                    setTimeout(() => { window.location.reload(); }, 10000);"
    ∷ "                }, 500);" ∷ "" ∷ "                return true;" ∷ "            }"
    ∷ "        </script>" ∷ "    </div>" ∷ "    <script>"
    ∷ "        const STATUS_UPDATE_INTERVAL = 5000;" ∷ "" ∷ "        function updateStatus() {"
    ∷ "            fetch(\"/status\")" ∷ "                .then(response => {"
    ∷ "                    if (!response.ok) {"
    ∷ "                        throw new Error(\"Network response was not ok\");"
    ∷ "                    }" ∷ "                    return response.json();" ∷ "                })"
    ∷ "                .then(data => {"
    ∷ "                    document.getElementById(\"current-frequency\").textContent = data.frequency + \" Hz\";"
    ∷ "                    document.getElementById(\"active-antenna\").textContent = data.antenna;"
    ∷ "                })" ∷ "                .catch(error => {"
    ∷ "                    console.error(\"Error:\", error);"
    ∷ "                    document.getElementById(\"current-frequency\").textContent = \"Error updating\";"
    ∷ "                    document.getElementById(\"active-antenna\").textContent = \"Error updating\";"
    ∷ "                });" ∷ "        }" ∷ ""
    ∷ "        setInterval(updateStatus, STATUS_UPDATE_INTERVAL);" ∷ "        updateStatus();"
    ∷ "    </script>" ∷ "    " ∷ [])
